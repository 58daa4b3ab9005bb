-- ===== src/ModelEval.antt =====
-- app/services/model_eval.py: which observations may enter a dataset, and the rows of a dataset.
-- Days are ISO texts, which compare as texts; a column that is None is the empty text where the code
-- treats both alike. `math.log`, `parse_date` and the pattern of SPAC names are parameters.
pub mod Available
pub mod Leakage
pub mod Numerics
pub mod Metrics
pub mod WalkForward
pub mod Lookahead
pub mod Gate
pub mod Tiers
pub mod Market
mod Tests
use text.Mathlib.Text.{◌==◌ as str_eq}
use ipointel.Base.{
  ℕ, ◌+◌, ◌*◌, ◌/◌, ◌%◌, String, Bool, true, false, ◌&&◌, ◌||◌, Option, none, some, List, [], ◌∷◌,
  ◌++◌, leb, ◌==◌, if◌then◌else◌, filter, sort_by, length, any,
}
use ipointel.Base.Text.{Chars}
use ipointel.Runtime.{Runtime}
use ipointel.Runtime.Order.{num, lt, truthy}
use ipointel.Ipo.{Ipo}
use ipointel.ModelEval.Available.{
  Dataset, Observation, ltb_text, leb_text, latest_available, observations_of,
}

pub data Target : Type 0 where
  listing twelve_months twelve_months_relative : Target

-- A parsed day; `iso` is its `date().isoformat()`.
pub record Day : Type 0 where
  pub year : ℕ
  pub iso : Chars

pub record Features (F : Type 0) : Type 0 where
  pub log_issue_size : Option F
  pub log_offer_price : Option F
  pub fresh_issue_pct : Option F
  pub ofs_pct : Option F
  pub is_sme : Option F
  pub is_spac : Option F
  pub log_shares_offered : Option F
  pub log_revenue : Option F
  pub revenue_growth_pct : Option F
  pub net_margin_pct : Option F
  pub cfo_margin_pct : Option F
  pub market_return_60d_pct : Option F
  pub market_vol_20d_pct : Option F
  pub ipo_count_90d : Option F

-- `ALL_FEATURES`, each as what reads it
abbrev pub all_features : {F : Type 0} → List (Features F → Option F)
all_features =
    (λ x. x.log_issue_size)
    ∷ (λ x. x.log_offer_price)
    ∷ (λ x. x.fresh_issue_pct)
    ∷ (λ x. x.ofs_pct)
    ∷ (λ x. x.is_sme)
    ∷ (λ x. x.is_spac)
    ∷ (λ x. x.log_shares_offered)
    ∷ (λ x. x.log_revenue)
    ∷ (λ x. x.revenue_growth_pct)
    ∷ (λ x. x.net_margin_pct)
    ∷ (λ x. x.cfo_margin_pct)
    ∷ (λ x. x.market_return_60d_pct)
    ∷ (λ x. x.market_vol_20d_pct)
    ∷ (λ x. x.ipo_count_90d)
    ∷ []

-- `Row`, without its country
pub record Row (F : Type 0) : Type 0 where
  pub ipo_id : ℕ
  pub listing_date : Day
  pub features : Features F
  pub y_listing : Option Bool
  pub y_12m : Option Bool
  pub y_12m_relative : Option Bool
  pub heuristic_listing_prob : Option F
  pub heuristic_long_prob : Option F

-- The columns of `PerformanceSnapshot` and of `ScoreSnapshot` that a row reads.
pub record Performance (F : Type 0) : Type 0 where
  pub listing_return_pct : Option F
  pub return_12m_pct : Option F
  pub benchmark_return_pct : Option F
  pub benchmark_relative_12m_pct : Option F

pub record Heuristic (F : Type 0) : Type 0 where
  pub listing_gain_probability : F
  pub long_term_outperform_probability : F

-- `trailing_ipo_count` of app/services/market_regime.py, with the day 90 days before as an argument
unfoldable pub trailing_ipo_count : List Chars → Chars → Chars → ℕ
trailing_ipo_count listing_dates lo as_of =
    length (filter (λ d. leb_text lo d && ltb_text d as_of) listing_dates)

-- The dates that parse.
abbrev pub parsed : {F : Type 0} → (String → Option Day) → List (Ipo F) → List Chars
parsed parse_date [] = []
parsed parse_date (i ∷ ipos) =
    let rest = parsed parse_date ipos in
    elim (parse_date i.listing_date) [ none ↦ rest | some d ↦ d.iso ∷ rest ]

module _ (py : Runtime) (log : py.F → py.F) (is_spac_name : String → Bool) where
  open py use {F, sub, mul, div}

  -- `_log`
  abbrev pub log_of : Option F → Option F
  log_of none = none
  log_of (some v) = if lt py (num py 0) v then some (log v) else none

  -- `(a / b - 1) * 100` and `a / b * 100` where a is known and b is truthy
  abbrev pub growth_of : Option F → Option F → Option F
  growth_of (some a) (some b) =
      if truthy py (some b) then some (mul (sub (div a b) (num py 1)) (num py 100)) else none
  growth_of _ _ = none

  abbrev pub margin_of : Option F → Option F → Option F
  margin_of (some a) (some b) =
      if truthy py (some b) then some (mul (div a b) (num py 100)) else none
  margin_of _ _ = none

  -- The features from the issue's own columns, the latest value of each field, and the count of recent
  -- listings that `build_rows` adds.
  unfoldable pub features_from : Ipo F → (String → Option F) → ℕ → Features F
  features_from ipo latest recent =
      let rev = latest "revenue_m" in
      record {
        log_issue_size = log_of ipo.issue_size_m;
        log_offer_price = log_of ipo.final_price;
        fresh_issue_pct = ipo.fresh_issue_pct;
        ofs_pct = ipo.ofs_pct;
        is_sme = some (if str_eq ipo.board "SME" then num py 1 else num py 0);
        is_spac = some (if is_spac_name ipo.company then num py 1 else num py 0);
        log_shares_offered = log_of ipo.shares_offered_m;
        log_revenue = log_of rev;
        revenue_growth_pct = growth_of rev (latest "revenue_prev_m");
        net_margin_pct = margin_of (latest "net_income_m") rev;
        cfo_margin_pct = margin_of (latest "cfo_m") rev;
        market_return_60d_pct = latest "market_return_60d_pct";
        market_vol_20d_pct = latest "market_vol_20d_pct";
        ipo_count_90d = some (num py recent);
      }

  -- `features_for`
  unfoldable pub features_for : Ipo F → List (Observation F) → Chars → Dataset → ℕ → Features F
  unfolding features_from
  features_for ipo fin as_of dataset recent =
      features_from ipo (λ field. latest_available (observations_of ipo.id field fin) as_of dataset)
        recent

  abbrev pub is_positive : Option F → Option Bool
  is_positive none = none
  is_positive (some r) = some (lt py (num py 0) r)

  abbrev pub difference : Option F → Option F → Option F
  difference (some a) (some b) = some (sub a b)
  difference _ _ = none

  -- `_relative_target`
  unfoldable pub relative_target : Performance F → Option Bool
  relative_target pf = is_positive (elim pf.benchmark_relative_12m_pct [
    | none ↦ difference pf.return_12m_pct pf.benchmark_return_pct
    | some rel ↦ some rel
  ])

  module _ (parse_date : String → Option Day) (ninety_before : Chars → Chars)
      (perf_of : ℕ → Option (Performance F)) (score_of : ℕ → Option (Heuristic F))
      (fin : List (Observation F)) (dataset : Dataset) where
    unfoldable pub row_of : List Chars → Ipo F → Day → Performance F → Row F
    unfolding features_for relative_target trailing_ipo_count
    row_of listed ipo ld pf = record {
      ipo_id = ipo.id;
      listing_date = ld;
      features =
          features_for ipo fin ld.iso dataset
            (trailing_ipo_count listed (ninety_before ld.iso) ld.iso);
      y_listing = is_positive pf.listing_return_pct;
      y_12m = is_positive pf.return_12m_pct;
      y_12m_relative = relative_target pf;
      heuristic_listing_prob = elim (score_of ipo.id) [
        | none ↦ none
        | some sc ↦ some sc.listing_gain_probability
      ];
      heuristic_long_prob = elim (score_of ipo.id) [
        | none ↦ none
        | some sc ↦ some sc.long_term_outperform_probability
      ];
    }

    -- A row where the date parses and a performance is on record.
    abbrev pub row_if : List Chars → Ipo F → Option Day → Option (Performance F) → List (Row F)
    row_if listed ipo (some ld) (some pf) = row_of listed ipo ld pf ∷ []
    row_if listed ipo _ _ = []

    unfoldable pub rows_of : List Chars → List (Ipo F) → List (Row F)
    unfolding row_of
    rows_of listed [] = []
    rows_of listed (ipo ∷ ipos) =
        row_if listed ipo (parse_date ipo.listing_date) (perf_of ipo.id) ++ rows_of listed ipos

    unfoldable pub build_rows : String → List (Ipo F) → List (Row F)
    unfolding rows_of
    build_rows country table =
        let ipos = filter (λ i. str_eq i.country country && str_eq i.status "Listed") table in
        sort_by (λ a b. leb_text a.listing_date.iso b.listing_date.iso)
          (rows_of (parsed parse_date ipos) ipos)
