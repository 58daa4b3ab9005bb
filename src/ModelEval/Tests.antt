-- ===== src/ModelEval/Tests.antt =====
-- Small runs of the model evaluation in fixed-point numbers, and its theorems at concrete inputs.
use ipointel.Base.{
  ℕ, ◌≡◌, refl, String, Bool, true, false, none, some, List, [], ◌∷◌, ◌++◌, filter, All, leb,
}
use ipointel.Base.Int.{ℤ, pos, ◌+ℤ◌, ◌-ℤ◌}
use ipointel.Base.Text.{Chars, codes}
use ipointel.Runtime.Fixed.{fixed, fixed_dec, fixed_mul, fixed_div}
use ipointel.Runtime.Order.{or_zero}
use ipointel.Ipo.Sample.{complete}
use ipointel.Walkforward.{Pair, sum_from}
use ipointel.ModelEval.{listing, Row, Features, all_features, features_for, trailing_ipo_count}
use ipointel.ModelEval.Available.{Observation, production, research, latest_available}
use ipointel.ModelEval.Leakage.{IsUnavailable, later, other_rule, features_for_late}
use ipointel.ModelEval.Numerics.{solve}
use ipointel.ModelEval.Metrics.{Metrics, rank_auc}
use ipointel.ModelEval.WalkForward.{Fold, outcomes}
use ipointel.ModelEval.Lookahead.{up_to, outcomes-up_to}
use ipointel.ModelEval.Gate.{release_gate}
use ipointel.ModelEval.Market.{evaluate_market}
use ipointel.ModelEval.Tiers.{research_data, evaluate_market-IsUnfit}

-- A prospectus figure from before the listing, and comparatives that came after it.
abbrev filed : Observation ℤ
filed = record {
  ipo_id = 7;
  field_name = "revenue_m";
  value = some (pos 900_000_000);
  availability_rule = "prospectus_filing";
  available_at = codes "2024-05-01";
  period_end = codes "2024-03-31";
}

abbrev amended : Observation ℤ
amended = record filed { value = some (pos 950_000_000); available_at = codes "2024-07-01" }

abbrev comparative : Observation ℤ
comparative = record filed {
  value = some (pos 990_000_000);
  availability_rule = "xbrl_post_ipo_comparative";
}

abbrev as_of : Chars
as_of = codes "2024-06-10"

known_then :
    latest_available (filed ∷ amended ∷ comparative ∷ []) as_of production ≡ some (pos 900_000_000)
unfolding latest_available
known_then = refl

known_in_research :
    latest_available (filed ∷ amended ∷ comparative ∷ []) as_of research ≡ some (pos 900_000_000)
unfolding latest_available
known_in_research = refl

abbrev no_log : ℤ → ℤ
no_log x = x

abbrev not_spac : String → Bool
not_spac name = false

both_late : All (IsUnavailable as_of) (amended ∷ comparative ∷ [])
both_late = (later refl, (other_rule refl, tt))

features_for_late_example :
    features_for fixed no_log not_spac complete
      ([] ++ ((amended ∷ comparative ∷ []) ++ filed ∷ []))
      as_of
      production
      3
    ≡ features_for fixed no_log not_spac complete ([] ++ filed ∷ []) as_of production 3
features_for_late_example =
    features_for_late fixed no_log not_spac complete [] (amended ∷ comparative ∷ []) (filed ∷ [])
      as_of 3 both_late

recent_listings :
    trailing_ipo_count
      (codes "2024-06-10" ∷ codes "2024-05-01" ∷ codes "2024-01-01" ∷ [])
      (codes "2024-03-12")
      as_of
    ≡ 1
unfolding trailing_ipo_count
recent_listings = refl

-- 2 x + y = 5 and x + 3 y = 10.
solved :
    solve fixed no_log
      ((pos 2_000_000 ∷ pos 1_000_000 ∷ []) ∷ (pos 1_000_000 ∷ pos 3_000_000 ∷ []) ∷ [])
      (pos 5_000_000 ∷ pos 10_000_000 ∷ [])
    ≡ pos 1_000_000 ∷ pos 3_000_000 ∷ []
unfolding solve fixed_dec fixed_div fixed_mul ◌-ℤ◌
solved = refl

-- Three of four comparisons are won, and one is a tie.
ranked :
    rank_auc fixed (
      (pos 70_000_000, true)
      ∷ (pos 60_000_000, false)
      ∷ (pos 60_000_000, true)
      ∷ (pos 50_000_000, false)
      ∷ [])
    ≡ some (pos 875_000)
unfolding rank_auc fixed_dec fixed_div ◌-ℤ◌ ◌+ℤ◌ sum_from
ranked = refl

abbrev no_features : Features ℤ
no_features = record {
  log_issue_size = none;
  log_offer_price = none;
  fresh_issue_pct = some (pos 1_000_000);
  ofs_pct = none;
  is_sme = none;
  is_spac = some (pos 0);
  log_shares_offered = none;
  log_revenue = none;
  revenue_growth_pct = none;
  net_margin_pct = none;
  cfo_margin_pct = none;
  market_return_60d_pct = none;
  market_vol_20d_pct = none;
  ipo_count_90d = none;
}

abbrev listed_in : ℕ → Bool → Row ℤ
listed_in year rose = record {
  ipo_id = year;
  listing_date = record { year = year; iso = [] };
  features = no_features;
  y_listing = some rose;
  y_12m = none;
  y_12m_relative = none;
  heuristic_listing_prob = none;
  heuristic_long_prob = none;
}

abbrev history : List (Row ℤ)
history =
    listed_in 2021 true ∷ listed_in 2021 false ∷ listed_in 2022 true ∷ listed_in 2023 false ∷ []

outcomes-up_to_example :
    outcomes fixed no_log all_features listing 2 (up_to 2022 history)
    ≡ filter (λ o. leb o.fold.year 2022) (outcomes fixed no_log all_features listing 2 history)
outcomes-up_to_example = outcomes-up_to fixed no_log all_features listing 2 2022 history

abbrev measured : ℕ → ℤ → Metrics fixed
measured n brier = record {
  n = n;
  positive_rate_pct = none;
  auc = some (pos 620_000);
  pr_auc = none;
  brier = some brier;
  log_loss = none;
  ece = none;
  calibration = [];
}

abbrev fold : ℕ → Fold ℤ
fold year = record {
  year = year;
  n_train = 100;
  n_test = 100;
  scores = some (record {
    train_positive_pct = pos 50_000_000;
    auc = some (pos 600_000);
    brier = none;
    design_columns = 3;
  });
}

passes :
    (release_gate fixed
      (measured 300 (pos 200_000))
      (measured 300 (pos 250_000))
      (fold 2021 ∷ fold 2022 ∷ fold 2023 ∷ [])
      true
      none
      none
      0).passed
    ≡ true
unfolding release_gate fixed_dec fixed_div ◌-ℤ◌
passes = refl

above_zero : fixed.leb (fixed_dec 2 2) (fixed_dec 0 0) ≡ false
unfolding fixed_dec
above_zero = refl

good_auc : fixed.leb (fixed_dec 58 2) (or_zero fixed (some (pos 620_000))) ≡ true
unfolding fixed_dec
good_auc = refl

abbrev no_resamples : List (Pair ℤ) → List (List (Pair ℤ))
no_resamples pairs = []

evaluate_market-IsUnfit_example :
    let gate =
      ((evaluate_market fixed no_log no_log no_resamples history "India" research 80).targets
        listing).gate in
    (gate.passed ≡ false) × (gate.probability_allowed ≡ false)
evaluate_market-IsUnfit_example =
    evaluate_market-IsUnfit fixed no_log no_log no_resamples history "India" research 80 listing
      (research_data refl)
