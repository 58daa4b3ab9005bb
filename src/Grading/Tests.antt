-- ===== src/Grading/Tests.antt =====
-- The grader on one listed issue, and the theorems at it. A number n stands for n millionths.
use ipointel.Base.{
  ℕ, ◌*◌, String, ◌≡◌, refl, inl, Bool, true, Option, none, some, List, [], ◌∷◌, arith,
}
use ipointel.Base.Int.{ℤ, pos, ◌-ℤ◌}
use ipointel.Runtime.Fixed.{fixed, fixed_mul, fixed_div, fixed_dec}
use ipointel.Ipo.{Ipo}
use ipointel.Ipo.Sample.{sparse}
use ipointel.Market.{
  Bar, Returns, windowed_returns, is_implausible, day_seconds, measured, from_session, listing_bar,
  in_time, split_adjusted_issue_price, factor_after,
}
use ipointel.Grading.{
  pending, not_yet_eligible, awaiting, not_listed_yet, same_category, classify_prediction,
  classify_listed,
}
use ipointel.Grading.Ledger.{Row}
use ipointel.Grading.Grader.{History, new_outcome, grade, attempt, settle}
use ipointel.Grading.Progress.{attempt_settles, category_after}
use ipointel.Grading.Suppressed.{grade_republishes}

-- Listed on day 100 at an issue price of 100.
abbrev listed : Ipo ℤ
listed = record sparse {
  status = "Listed";
  symbol = "ACME";
  listing_date = "2026-01-05";
  final_price = some (pos 100_000_000);
}

abbrev day_100 : String → Option ℕ
day_100 s = some 100

abbrev bar : ℕ → Bar ℤ
bar close = record {
  ts = 100 * day_seconds;
  opening = some (pos (close * 1_000_000));
  close = pos (close * 1_000_000);
}

abbrev history : Ipo ℤ → History ℤ
history ipo = record { prices = bar 110 ∷ []; url = ""; splits = []; error = none }

abbrev no_benchmark : String → List (Bar ℤ)
no_benchmark country = []

attempt_settles_example :
    classify_prediction fixed day_100 listed
      (some (
        settle fixed day_100 history no_benchmark listed 120
          (attempt fixed day_100 history listed)
          (new_outcome 1 7)))
      130
    ≡ category_after fixed day_100 (attempt fixed day_100 history listed)
unfolding classify_prediction classify_listed fixed_dec
attempt_settles_example =
    attempt_settles fixed day_100 history no_benchmark listed none (new_outcome 1 7) 120 130 120
      (omega arith) (inl refl)

abbrev rows : List Row
rows =
    record { snapshot_id = 1; ipo_id = 7; country = "India"; category = pending; reason = awaiting }
    ∷ record {
      snapshot_id = 2;
      ipo_id = 8;
      country = "";
      category = not_yet_eligible;
      reason = not_listed_yet "Open";
    }
    ∷ []

abbrev is_pending : Row → Bool
is_pending row = same_category row.category pending

-- A first close of 3000 against 100 is suppressed, and published after all.
abbrev suppressed_result : Returns ℤ
suppressed_result =
    measured fixed (bar 3000) [] (bar 3000) (some (pos 100_000_000)) [] (pos 3_000_000_000) true

grade_republishes_example :
    (v : ℤ) × ((grade fixed listed suppressed_result none "" 120
        (new_outcome 1 7)).listing_close_return_pct
      ≡ some (fixed.round v 2))
    × (is_implausible fixed v ≡ true)
unfolding windowed_returns from_session listing_bar in_time split_adjusted_issue_price factor_after
    fixed_mul fixed_div fixed_dec ◌-ℤ◌
grade_republishes_example =
    grade_republishes fixed (bar 3000 ∷ []) (100 * day_seconds) listed (pos 100_000_000)
      suppressed_result none "" 120 (new_outcome 1 7) refl refl refl refl
