-- ===== src/RedFlags.antt =====
-- app/services/redflags.py: the rules over an IPO record that raise red flags, their order by
-- severity, and their summary. A flag's prose (title, detail, rule) is left out.
pub mod Order
pub mod Groups
pub mod Critical
mod Tests
use ipointel.Base.{
  ℕ, ◌+◌, String, Bool, true, false, ◌&&◌, Option, none, some, List, [], ◌∷◌, ◌++◌, ltb, leb,
  is_some, length, if◌then◌else◌,
}
use ipointel.Runtime.{Runtime}
use ipointel.Runtime.Order.{num, lt, known_and, truthy, or_zero}
use ipointel.Ipo.{Ipo}
use ipointel.Scoring.Confidence.{is_india}
use ipointel.Scoring.Score.{net_debt, is_true}

pub data Severity : Type 0 where
  info watch high critical : Severity

pub data Metric (F : Type 0) : Type 0 where
  number : Option F → Metric F
  days : Option ℕ → Metric F
  yes : Metric F

pub record Flag (F : Type 0) : Type 0 where
  pub code : String
  pub severity : Severity
  pub metric_field : String
  pub metric_value : Metric F
  pub observed_at : Option ℕ

-- `severity_rank`
abbrev pub severity_rank : Severity → ℕ
severity_rank critical = 0
severity_rank high = 1
severity_rank watch = 2
severity_rank info = 3

-- The list method `sort` by a key keeps the order of flags with equal keys.
unfoldable pub insert : {F : Type 0} → Flag F → List (Flag F) → List (Flag F)
insert f [] = f ∷ []
insert f (g ∷ gs) =
    if leb (severity_rank f.severity) (severity_rank g.severity)
    then f ∷ g ∷ gs
    else g ∷ insert f gs

unfoldable pub sort : {F : Type 0} → List (Flag F) → List (Flag F)
sort [] = []
sort (f ∷ fs) = insert f (sort fs)

abbrev pub same_severity : Severity → Severity → Bool
same_severity a b =
    leb (severity_rank a) (severity_rank b) && leb (severity_rank b) (severity_rank a)

-- `counts[s]`
unfoldable pub count : {F : Type 0} → Severity → List (Flag F) → ℕ
count s [] = 0
count s (f ∷ fs) = (if same_severity s f.severity then 1 else 0) + count s fs

pub record Summary : Type 0 where
  pub info_count : ℕ
  pub watch_count : ℕ
  pub high_count : ℕ
  pub critical_count : ℕ
  pub worst : Option Severity
  pub total : ℕ

-- `next((lvl for lvl in (CRITICAL, HIGH, WATCH, INFO) if counts[lvl]), None)`
unfoldable pub worst_of : {F : Type 0} → List (Flag F) → Option Severity
worst_of fs =
    if ltb 0 (count critical fs)
    then some critical
    else if ltb 0 (count high fs)
    then some high
    else if ltb 0 (count watch fs)
    then some watch
    else if ltb 0 (count info fs)
    then some info
    else none

unfoldable pub summarize : {F : Type 0} → List (Flag F) → Summary
unfolding worst_of
summarize fs = record {
  info_count = count info fs;
  watch_count = count watch fs;
  high_count = count high fs;
  critical_count = count critical fs;
  worst = worst_of fs;
  total = length fs;
}

module _ (py : Runtime) where
  open py use {F, sub, mul, div, dec}

  unfoldable pub flag : Ipo F → Bool → String → Severity → String → Metric F → List (Flag F)
  flag ipo b code severity field value =
      if b
      then record {
        code = code;
        severity = severity;
        metric_field = field;
        metric_value = value;
        observed_at = ipo.updated_at;
      }
        ∷ []
      else []

  -- `x is not None and y is not None and test(x, y)`
  abbrev pub both_known : (F → F → Bool) → Option F → Option F → Bool
  both_known test (some a) (some b) = test a b
  both_known test _ _ = false

  abbrev pub known_days : (ℕ → Bool) → Option ℕ → Bool
  known_days test none = false
  known_days test (some n) = test n

  unfoldable pub financial_flags : Ipo F → List (Flag F)
  unfolding flag
  financial_flags ipo =
      let zero_f = num py 0 in
      let debt = net_debt py ipo in
      flag ipo (known_and py (λ v. lt py v zero_f) ipo.cfo_m) "neg_cfo" high "cfo_m"
        (number ipo.cfo_m)
      ++ (flag ipo
            (both_known (λ n c. lt py zero_f n && lt py c (mul n (dec 5 1))) ipo.net_income_m
              ipo.cfo_m)
            "pat_cfo_gap" watch "cfo_m" (number ipo.cfo_m)
          ++ (flag ipo (known_and py (λ v. lt py v zero_f) ipo.net_income_m) "losses" watch
                "net_income_m" (number ipo.net_income_m)
              ++ (flag ipo
                    (truthy py ipo.revenue_prev_m
                      && both_known
                          (λ r p. lt py (mul (sub (div r p) (num py 1)) (num py 100)) zero_f)
                          ipo.revenue_m ipo.revenue_prev_m)
                    "revenue_decline" high "revenue_m" (number ipo.revenue_m)
                  ++ (flag ipo
                        (truthy py ipo.ebitda_m
                          && both_known (λ d e. lt py zero_f e && lt py (dec 35 1) (div d e)) debt
                              ipo.ebitda_m)
                        "high_leverage" watch "debt_m" (number debt)
                      ++ flag ipo (known_and py (λ v. lt py v zero_f) ipo.ebitda_m) "neg_ebitda"
                          watch "ebitda_m" (number ipo.ebitda_m)))))

  unfoldable pub structure_flags : Ipo F → List (Flag F)
  unfolding flag
  structure_flags ipo =
      let high_ofs = known_and py (λ v. py.leb (num py 70) v) ipo.ofs_pct in
      flag ipo high_ofs "high_ofs" high "ofs_pct" (number ipo.ofs_pct)
      ++ (flag ipo
            (if high_ofs then false else known_and py (λ v. py.leb (num py 45) v) ipo.ofs_pct)
            "moderate_ofs" watch "ofs_pct" (number ipo.ofs_pct)
          ++ (flag ipo
                (known_and py (λ v. lt py v (num py 15)) ipo.fresh_issue_pct
                  && lt py (num py 0) (or_zero py ipo.ofs_pct))
                "low_primary_capital" watch "fresh_issue_pct" (number ipo.fresh_issue_pct)
              ++ (flag ipo (known_and py (λ v. py.leb (num py 40) v) ipo.market_overhang_pct)
                    "overhang" watch "market_overhang_pct" (number ipo.market_overhang_pct)
                  ++ flag ipo (known_days (λ n. ltb n 90) ipo.lockup_days) "short_lockup" info
                      "lockup_days" (days ipo.lockup_days))))

  unfoldable pub governance_flags : Ipo F → List (Flag F)
  unfolding flag
  governance_flags ipo =
      flag ipo (is_true py ipo.dual_class) "dual_class" watch "dual_class" yes
      ++ flag ipo
          (known_and py (λ v. lt py v (num py 40)) ipo.promoter_retention_pct && is_india py ipo)
          "low_promoter_retention" watch "promoter_retention_pct"
          (number ipo.promoter_retention_pct)

  unfoldable pub demand_flags : Ipo F → List (Flag F)
  unfolding flag
  demand_flags ipo =
      flag ipo (known_and py (λ v. lt py v (num py 1)) ipo.total_sub) "undersubscribed" high
        "total_sub" (number ipo.total_sub)
      ++ flag ipo (known_and py (λ v. lt py v (num py 1)) ipo.qib_sub && is_india py ipo) "weak_qib"
          watch "qib_sub" (number ipo.qib_sub)

  -- `price_low > price_high`, where both are known
  abbrev pub is_inverted : Ipo F → Bool
  is_inverted ipo = both_known (λ l h. lt py h l) ipo.price_low ipo.price_high

  unfoldable pub band_flags : Ipo F → List (Flag F)
  unfolding flag
  band_flags ipo =
      flag ipo (is_inverted ipo) "inverted_band" critical "price_low" (number ipo.price_low)

  unfoldable pub all_flags : Ipo F → List (Flag F)
  all_flags ipo =
      financial_flags ipo
      ++ (structure_flags ipo ++ (governance_flags ipo ++ (demand_flags ipo ++ band_flags ipo)))

  unfoldable pub evaluate : Ipo F → List (Flag F)
  evaluate ipo = sort (all_flags ipo)
