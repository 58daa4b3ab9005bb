-- ===== src/Grading/Ledger.antt =====
-- `forward_ledger`, `ledger_counts` and `public_ledger` of app/services/forward_grading.py, and that the
-- counts lose no prediction. Of a ledger row, the columns that the counts read.
use ipointel.Base.{
  ℕ, ◌+◌, ◌≤◌, String, ◌≡◌, inl, inr, Option, none, some, List, [], ◌∷◌, map, arith, length,
  is_empty, if◌then◌else◌, Bool-cases,
}
use text.Mathlib.Text.{◌==◌}
use ipointel.Base.Dict.{Dict}
use ipointel.Runtime.{Runtime}
use ipointel.Ipo.{Ipo}
use ipointel.Grading.{
  Category, Reason, Outcome, graded, pending, blocked_identity, blocked_offer_price,
  blocked_market_data, not_yet_eligible, invalid_forward_record, row_missing, classify_prediction,
}

pub record Row : Type 0 where
  pub snapshot_id : ℕ
  pub ipo_id : ℕ
  -- empty where the IPO's row is missing
  pub country : String
  pub category : Category
  pub reason : Reason

-- `{c: 0 for c in CATEGORIES}` with its counters
pub record Tally : Type 0 where
  pub n_graded : ℕ
  pub n_pending : ℕ
  pub n_blocked_identity : ℕ
  pub n_blocked_offer_price : ℕ
  pub n_blocked_market_data : ℕ
  pub n_not_yet_eligible : ℕ
  pub n_invalid : ℕ

abbrev pub empty_tally : Tally
empty_tally = record {
  n_graded = 0;
  n_pending = 0;
  n_blocked_identity = 0;
  n_blocked_offer_price = 0;
  n_blocked_market_data = 0;
  n_not_yet_eligible = 0;
  n_invalid = 0;
}

-- `counts[category] += 1`
unfoldable pub bump : Category → Tally → Tally
bump graded t = record t { n_graded = t.n_graded + 1 }
bump pending t = record t { n_pending = t.n_pending + 1 }
bump blocked_identity t = record t { n_blocked_identity = t.n_blocked_identity + 1 }
bump blocked_offer_price t = record t { n_blocked_offer_price = t.n_blocked_offer_price + 1 }
bump blocked_market_data t = record t { n_blocked_market_data = t.n_blocked_market_data + 1 }
bump not_yet_eligible t = record t { n_not_yet_eligible = t.n_not_yet_eligible + 1 }
bump invalid_forward_record t = record t { n_invalid = t.n_invalid + 1 }

-- `row.get("country") or "?"`
abbrev pub country_key : Row → String
country_key row = if is_empty row.country then "?" else row.country

-- `by_country.setdefault(key, {...})[category] += 1`, in the dict's order
unfoldable pub bump_country : String → Category → Dict Tally → Dict Tally
bump_country key c [] = (key, bump c empty_tally) ∷ []
bump_country key c ((k, t) ∷ d) =
    let rest = bump_country key c d in if k == key then (k, bump c t) ∷ d else (k, t) ∷ rest

pub record Counts : Type 0 where
  pub total : ℕ
  pub by_category : Tally
  pub by_country : Dict Tally

unfoldable pub count_rows : List Row → Tally → Dict Tally → Tally × Dict Tally
count_rows [] t d = (t, d)
count_rows (row ∷ rows) t d =
    count_rows rows (bump row.category t) (bump_country (country_key row) row.category d)

unfoldable pub ledger_counts : List Row → Counts
ledger_counts rows =
    let (t, d) = count_rows rows empty_tally [] in
    record { total = length rows; by_category = t; by_country = d }

pub record Published : Type 0 where
  pub gradable : ℕ
  pub n_published_graded : ℕ
  pub n_total : ℕ

-- the two headline figures of `public_ledger`, with the total
unfoldable pub public_ledger : List Row → Published
unfolding ledger_counts
public_ledger rows =
    let counts = ledger_counts rows in
    let t = counts.by_category in
    record {
      gradable =
          t.n_graded + t.n_pending + t.n_blocked_identity + t.n_blocked_offer_price
          + t.n_blocked_market_data;
      n_published_graded = t.n_graded;
      n_total = counts.total;
    }

module _ (py : Runtime) (parse_date : String → Option ℕ) where
  -- One row of `forward_ledger` for a snapshot of an IPO, whose row may be missing.
  unfoldable pub ledger_row :
      (ℕ → Option (Ipo py.F)) → (ℕ → Option (Outcome py.F)) → ℕ → ℕ × ℕ → Row
  ledger_row ipos outcomes today (snapshot_id, ipo_id) = row_for (ipos ipo_id)
    where
      row_for : Option (Ipo py.F) → Row
      row_for none = record {
        snapshot_id = snapshot_id;
        ipo_id = ipo_id;
        country = "";
        category = invalid_forward_record;
        reason = row_missing;
      }
      row_for (some ipo) =
          let (category, reason) =
            classify_prediction py parse_date ipo (outcomes snapshot_id) today in
          record {
            snapshot_id = snapshot_id;
            ipo_id = ipo_id;
            country = ipo.country;
            category = category;
            reason = reason;
          }

  unfoldable pub forward_ledger :
      (ℕ → Option (Ipo py.F)) → (ℕ → Option (Outcome py.F)) → ℕ → List (ℕ × ℕ) → List Row
  forward_ledger ipos outcomes today snaps = map (ledger_row ipos outcomes today) snaps

-- How many predictions the counters hold.
abbrev pub sum : Tally → ℕ
sum t =
    t.n_graded + t.n_pending + t.n_blocked_identity + t.n_blocked_offer_price
    + t.n_blocked_market_data + t.n_not_yet_eligible + t.n_invalid

abbrev pub sum_countries : Dict Tally → ℕ
sum_countries [] = 0
sum_countries ((k, t) ∷ d) = sum t + sum_countries d

pub sum-bump : (c : Category) (t : Tally) → sum (bump c t) ≡ 1 + sum t
unfolding bump
sum-bump graded t = omega arith
sum-bump pending t = omega arith
sum-bump blocked_identity t = omega arith
sum-bump blocked_offer_price t = omega arith
sum-bump blocked_market_data t = omega arith
sum-bump not_yet_eligible t = omega arith
sum-bump invalid_forward_record t = omega arith

sum-bump_country :
    (key : String) (c : Category) (d : Dict Tally)
    → sum_countries (bump_country key c d) ≡ 1 + sum_countries d
unfolding bump_country
sum-bump_country key c [] = omega (arith, sum-bump c empty_tally)
sum-bump_country key c ((k, t) ∷ d) = elim (Bool-cases (k == key)) [
  | inl e ↦ rw e (omega (arith, sum-bump c t))
  | inr e ↦ rw e (omega (arith, sum-bump_country key c d))
]

count_rows_lem :
    (rows : List Row) (t : Tally) (d : Dict Tally)
    → (sum (count_rows rows t d).0 ≡ length rows + sum t)
      × (sum_countries (count_rows rows t d).1 ≡ length rows + sum_countries d)
unfolding count_rows
count_rows_lem [] t d = (omega arith, omega arith)
count_rows_lem (row ∷ rows) t d =
    let key = country_key row in
    let (h, k) = count_rows_lem rows (bump row.category t) (bump_country key row.category d) in
    (
      omega (arith, h, sum-bump row.category t),
      omega (arith, k, sum-bump_country key row.category d),
    )

-- The counts of a ledger lose no prediction: those by category, and those by country, add up to the
-- number of rows, and the published figures lie in order: graded, gradable, total.
pub ledger_counts-total :
    (rows : List Row)
    → (sum (ledger_counts rows).by_category ≡ length rows)
      × (sum_countries (ledger_counts rows).by_country ≡ length rows)
      × ((public_ledger rows).n_published_graded ≤ (public_ledger rows).gradable)
      × ((public_ledger rows).gradable ≤ (public_ledger rows).n_total)
unfolding ledger_counts public_ledger
ledger_counts-total rows =
    let (h, k) = count_rows_lem rows empty_tally [] in
    (omega (arith, h), omega (arith, k), omega arith, omega (arith, h))
