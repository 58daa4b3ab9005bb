-- ===== src/Scoring/Score.antt =====
-- `compute_score` of app/scoring.py: the pillars, the three weighted scores, and the verdict.
use ipointel.Base.{
  ℕ, Bool, true, false, not, ◌&&◌, ◌||◌, Option, none, some, List, [], ◌∷◌, ◌++◌, take, is_some,
  if◌then◌else◌,
}
use ipointel.Runtime.{Runtime}
use ipointel.Runtime.Order.{num, lt, or_zero, known_and, truthy}
use ipointel.Ipo.{Ipo}
use ipointel.Scoring.{
  score_linear, safe_div, avg, pct_growth, quality_5, subscription, probability_from_score,
}
use ipointel.Scoring.Valuation.{Label, valuation, insufficient_data, multiple}
use ipointel.Scoring.Confidence.{confidence, is_india}

pub data Recommendation : Type 0 where
  invest_strong invest_selectively watch avoid no_recommendation : Recommendation

pub data Horizon : Type 0 where
  wait_for_data listing_only both wait_for_discovery long_term_bias listing_bias no_edge : Horizon

-- The messages of `rationale`, `risks` and `what_changes_verdict`, one constructor each.
pub data Message : Type 0 where
  strong_growth strong_financials attractive_value strong_demand : Message
  aggressive_value weak_financials low_coverage ofs_heavy dual_class undersubscribed : Message
  need_peers need_cash_flow need_qib need_confidence : Message

-- The settings that the score reads.
pub record Settings (F : Type 0) : Type 0 where
  pub strict_reliability : Bool
  pub min_recommendation_confidence : F

pub record Pillars (F : Type 0) : Type 0 where
  pub growth : F
  pub fin : F
  pub value : F
  pub issue : F
  pub governance : F
  pub demand : F
  pub gmp : F
  pub market : F
  pub conf : F

pub record Score (F : Type 0) : Type 0 where
  pub overall_score : F
  pub listing_score : F
  pub long_term_score : F
  pub confidence : F
  pub listing_gain_probability : F
  pub long_term_outperform_probability : F
  pub recommendation : Recommendation
  pub horizon : Horizon
  pub valuation_label : Label
  pub fair_value_low : Option F
  pub fair_value_high : Option F
  pub pillars : Pillars F
  pub rationale : List Message
  pub risks : List Message
  pub what_changes_verdict : List Message

abbrev pub when : Bool → Message → List Message
when b m = if b then m ∷ [] else []

module _ (py : Runtime) where
  open py use {F, dec, add, sub, mul, div, leb, round}

  -- -n
  neg : ℕ → F
  neg n = sub (num py 0) (num py n)

  -- 100 * x for an x that is known
  times_100 : Option F → Option F
  times_100 none = none
  times_100 (some x) = some (mul x (num py 100))

  unfoldable pub net_debt : Ipo F → Option F
  net_debt ipo =
      if is_some ipo.debt_m || is_some ipo.cash_m
      then some (sub (or_zero py ipo.debt_m) (or_zero py ipo.cash_m))
      else none

  leverage_score : Option F → F
  leverage_score none = num py 55
  leverage_score (some x) = sub (num py 100) (score_linear py (some x) (num py 0) (num py 4))

  unfoldable pub financial_quality : Ipo F → F
  unfolding times_100 net_debt leverage_score neg
  financial_quality ipo = avg py (
      some (
        score_linear py (times_100 (safe_div py ipo.ebitda_m ipo.revenue_m)) (num py 0) (num py 25))
      ∷ some (
          score_linear py (times_100 (safe_div py ipo.net_income_m ipo.revenue_m)) (neg 5)
            (num py 15))
      ∷ some (score_linear py (times_100 (safe_div py ipo.cfo_m ipo.revenue_m)) (neg 5) (num py 18))
      ∷ some (score_linear py (multiple py ipo.cfo_m ipo.net_income_m) (num py 0) (dec 12 1))
      ∷ some (leverage_score (multiple py (net_debt ipo) ipo.ebitda_m))
      ∷ [])

  -- 50 if unknown, 35 if dual-class, else 70
  unfoldable pub class_score : Option Bool → F
  class_score none = num py 50
  class_score (some true) = num py 35
  class_score (some false) = num py 70

  unfoldable pub demand_score : Ipo F → F
  demand_score ipo =
      if is_india py ipo
      then add
          (add
            (add
              (add (mul (dec 38 2) (subscription py ipo.qib_sub))
                (mul (dec 17 2) (subscription py ipo.nii_sub)))
              (mul (dec 13 2) (subscription py ipo.retail_sub)))
            (mul (dec 17 2) (subscription py ipo.total_sub)))
          (mul (dec 15 2) (quality_5 py ipo.anchor_quality))
      else avg py (
          some (quality_5 py ipo.underwriter_quality)
          ∷ some (score_linear py ipo.shares_offered_m (num py 30) (num py 2))
          ∷ [])

  unfoldable pub pillars : ℕ → Ipo F → ℕ → Pillars F
  unfolding financial_quality class_score demand_score neg
  pillars now ipo conflicts = record {
    growth =
        score_linear py
          (some (
            avg py (
              pct_growth py ipo.revenue_m ipo.revenue_prev_m
              ∷ pct_growth py ipo.revenue_prev_m ipo.revenue_2y_ago_m
              ∷ [])))
          (neg 10) (num py 35);
    fin = financial_quality ipo;
    value = (valuation py ipo).score;
    issue = avg py (
        some (score_linear py ipo.fresh_issue_pct (num py 0) (num py 80))
        ∷ some (sub (num py 100) (score_linear py ipo.ofs_pct (num py 0) (num py 100)))
        ∷ []);
    governance =
        if is_india py ipo
        then avg py (
            some (score_linear py ipo.promoter_retention_pct (num py 35) (num py 75))
            ∷ some (class_score ipo.dual_class)
            ∷ [])
        else class_score ipo.dual_class;
    demand = demand_score ipo;
    gmp = if is_india py ipo then score_linear py ipo.gmp_pct (neg 10) (num py 40) else num py 50;
    market =
        avg py (some (quality_5 py ipo.market_regime) ∷ some (quality_5 py ipo.sector_regime) ∷ []);
    conf = confidence py now ipo conflicts;
  }

  sum_from : F → List (ℕ × F) → F
  sum_from acc [] = acc
  sum_from acc ((w, x) ∷ ps) = sum_from (add acc (mul (dec w 2) x)) ps

  -- A weighted sum, from the left; weights are hundredths.
  unfoldable pub weighted : List (ℕ × F) → F
  unfolding sum_from
  weighted [] = num py 0
  weighted ((w, x) ∷ ps) = sum_from (mul (dec w 2) x) ps

  -- business=50.0, conservative until business-quality evidence is there
  unfoldable pub overall_of : Pillars F → F
  unfolding weighted
  overall_of p = weighted (
      (12, num py 50)
      ∷ (12, p.growth)
      ∷ (16, p.fin)
      ∷ (18, p.value)
      ∷ (9, p.issue)
      ∷ (9, p.governance)
      ∷ (10, p.demand)
      ∷ (7, p.market)
      ∷ (7, p.conf)
      ∷ [])

  unfoldable pub listing_of : Bool → Pillars F → F
  unfolding weighted
  listing_of india p =
      if india
      then weighted (
          (34, p.demand)
          ∷ (16, p.value)
          ∷ (14, p.gmp)
          ∷ (14, p.market)
          ∷ (7, p.growth)
          ∷ (5, p.fin)
          ∷ (10, p.conf)
          ∷ [])
      else weighted (
          (27, p.value)
          ∷ (18, p.demand)
          ∷ (18, p.market)
          ∷ (12, p.growth)
          ∷ (10, p.fin)
          ∷ (15, p.conf)
          ∷ [])

  unfoldable pub long_term_of : Pillars F → F
  unfolding weighted
  long_term_of p = weighted (
      (17, num py 50)
      ∷ (18, p.growth)
      ∷ (19, p.fin)
      ∷ (19, p.value)
      ∷ (10, p.governance)
      ∷ (7, p.issue)
      ∷ (4, p.market)
      ∷ (6, p.conf)
      ∷ [])

  -- The reliability gate: too little confidence, in strict mode.
  unfoldable pub is_gated : Settings F → F → Bool
  is_gated settings conf =
      settings.strict_reliability && lt py conf settings.min_recommendation_confidence

  unfoldable pub band : F → F → Recommendation
  band overall long_term =
      if leb (num py 80) overall && leb (num py 74) long_term
      then invest_strong
      else if leb (num py 70) overall
      then invest_selectively
      else if leb (num py 60) overall
      then watch
      else avoid

  unfoldable pub horizon_of : F → F → Horizon
  horizon_of listing long_term =
      if leb (num py 74) listing && lt py long_term (num py 65)
      then listing_only
      else if leb (num py 70) listing && leb (num py 72) long_term
      then both
      else if leb (num py 74) long_term && lt py listing (num py 65)
      then wait_for_discovery
      else if leb (num py 68) long_term
      then long_term_bias
      else if leb (num py 68) listing
      then listing_bias
      else no_edge

  unfoldable pub rationale_of : Pillars F → List Message
  rationale_of p =
      when (leb (num py 70) p.growth) strong_growth
      ++ (when (leb (num py 70) p.fin) strong_financials
          ++ (when (leb (num py 72) p.value) attractive_value
              ++ when (leb (num py 72) p.demand) strong_demand))

  abbrev pub is_true : Option Bool → Bool
  is_true none = false
  is_true (some b) = b

  unfoldable pub risks_of : Ipo F → Pillars F → List Message
  risks_of ipo p =
      when (lt py p.value (num py 42)) aggressive_value
      ++ (when (lt py p.fin (num py 45)) weak_financials
          ++ (when (lt py p.conf (num py 70)) low_coverage
              ++ (when (known_and py (λ v. lt py (num py 65) v) ipo.ofs_pct) ofs_heavy
                  ++ (when (is_true ipo.dual_class) dual_class
                      ++ when (known_and py (λ v. lt py v (num py 1)) ipo.total_sub)
                          undersubscribed))))

  abbrev pub is_insufficient : Label → Bool
  is_insufficient insufficient_data = true
  is_insufficient _ = false

  unfoldable pub changes_of : Settings F → Ipo F → Label → F → List Message
  changes_of settings ipo label conf =
      when (is_insufficient label) need_peers
      ++ (when (not (is_some ipo.cfo_m)) need_cash_flow
          ++ (when (is_india py ipo && not (is_some ipo.qib_sub)) need_qib
              ++ when (lt py conf settings.min_recommendation_confidence) need_confidence))

  -- a fair value, rounded where there is one and it is not zero
  unfoldable pub rounded : ℕ → Option F → Option F
  rounded n none = none
  rounded n (some v) = if truthy py (some v) then some (round v n) else none

  unfoldable pub round_pillars : Pillars F → Pillars F
  round_pillars p = record {
    growth = round p.growth 1;
    fin = round p.fin 1;
    value = round p.value 1;
    issue = round p.issue 1;
    governance = round p.governance 1;
    demand = round p.demand 1;
    gmp = round p.gmp 1;
    market = round p.market 1;
    conf = round p.conf 1;
  }

  unfoldable pub compute_score : Settings F → ℕ → Ipo F → ℕ → Score F
  unfolding pillars overall_of listing_of long_term_of is_gated band horizon_of rationale_of
      risks_of changes_of rounded round_pillars
  compute_score settings now ipo conflicts =
      let p = pillars now ipo conflicts in
      let overall = overall_of p in
      let listing = listing_of (is_india py ipo) p in
      let long_term = long_term_of p in
      let label = (valuation py ipo).label in
      record {
        overall_score = round overall 1;
        listing_score = round listing 1;
        long_term_score = round long_term 1;
        confidence = round p.conf 1;
        listing_gain_probability =
            round (probability_from_score py listing (num py 64) (num py 9)) 1;
        long_term_outperform_probability =
            round (probability_from_score py long_term (num py 67) (num py 10)) 1;
        recommendation =
            if is_gated settings p.conf then no_recommendation else band overall long_term;
        horizon = if is_gated settings p.conf then wait_for_data else horizon_of listing long_term;
        valuation_label = label;
        fair_value_low = rounded 2 (valuation py ipo).fair_low;
        fair_value_high = rounded 2 (valuation py ipo).fair_high;
        pillars = round_pillars p;
        rationale = take 6 (rationale_of p);
        risks = take 8 (risks_of ipo p);
        what_changes_verdict = take 8 (changes_of settings ipo label p.conf);
      }
