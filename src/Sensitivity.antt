-- ===== src/Sensitivity.antt =====
-- app/services/sensitivity.py: which change of one input would move the recommendation. The score is
-- computed anew at every value that is tried. The prose of a condition is left out, and so is `is_int`,
-- which no caller sets.
pub mod Blind
mod Tests
use ipointel.Base.{
  ℕ, zero, suc, Bool, true, false, not, ◌&&◌, ◌||◌, Option, none, some, List, [], ◌∷◌, ◌++◌, ltb,
  take, is_some, if◌then◌else◌,
}
use ipointel.Runtime.{Runtime}
use ipointel.Runtime.Order.{num, lt, truthy, or_else}
use ipointel.Ipo.{Ipo}
use ipointel.Scoring.Confidence.{is_india}
use ipointel.Scoring.Score.{
  Recommendation, invest_strong, invest_selectively, watch, avoid, no_recommendation, Settings,
  compute_score,
}

-- The fields that are perturbed.
pub data Lever : Type 0 where
  final_price qib_sub underwriter_quality market_regime ofs_pct cfo_m : Lever

-- `setattr(shadow, field, value)` on a copy of the row
unfoldable pub set_field : {F : Type 0} → Lever → F → Ipo F → Ipo F
set_field final_price v ipo = record ipo { final_price = some v }
set_field qib_sub v ipo = record ipo { qib_sub = some v }
set_field underwriter_quality v ipo = record ipo { underwriter_quality = some v }
set_field market_regime v ipo = record ipo { market_regime = some v }
set_field ofs_pct v ipo = record ipo { ofs_pct = some v }
set_field cfo_m v ipo = record ipo { cfo_m = some v }

-- `_rank`, the place in `BANDS`
abbrev pub rank : Recommendation → ℕ
rank invest_strong = 0
rank invest_selectively = 1
rank watch = 2
rank avoid = 3
rank no_recommendation = 4

-- An entry of the conditions: the lever, and the threshold that its text names.
pub record Condition (F : Type 0) : Type 0 where
  pub lever : Lever
  pub threshold : F

pub record Analysis (F : Type 0) : Type 0 where
  pub current_recommendation : Recommendation
  pub current_overall_score : F
  pub current_confidence : F
  pub upgrade_conditions : List (Condition F)
  pub downgrade_conditions : List (Condition F)

module _ (py : Runtime) (settings : Settings py.F) (now : ℕ) where
  open py use {F, dec, add, sub, mul, div, round}

  -- `_rank(compute_score(ipo)["recommendation"])`
  abbrev pub rank_of : Ipo F → ℕ
  rank_of ipo = rank (compute_score py settings now ipo 0).recommendation

  -- `_rank(_recommendation_at(ipo, field, value))`
  abbrev pub rank_at : Ipo F → Lever → F → ℕ
  rank_at ipo lever v = rank_of (set_field lever v ipo)

  -- whether a rank is better, or worse, than the base rank, as is wanted
  abbrev pub is_hit : Bool → ℕ → ℕ → Bool
  is_hit want_better base r = if want_better then ltb r base else ltb base r

  -- The rounds of the bisection; the answer is the last `b`.
  unfoldable pub bisect : (F → Bool) → ℕ → F → F → F
  bisect hit zero a b = b
  bisect hit (suc rounds) a b =
      let mid = div (add a b) (num py 2) in
      bisect hit rounds (if hit mid then a else mid) (if hit mid then mid else b)

  -- `_bisect_better`; a search for a worse rank starts at `hi` and looks at its rank first.
  unfoldable pub bisect_better : Ipo F → Lever → F → F → ℕ → Bool → Option F
  unfolding bisect
  bisect_better ipo lever lo hi base want_better =
      let hit : F → Bool = λ v. is_hit want_better base (rank_at ipo lever v) in
      if not (hit hi)
      then none
      else some (
          round (bisect hit 24 (if want_better then lo else hi) (if want_better then hi else lo)) 2)

  -- A condition, where a threshold was found and lies far enough.
  unfoldable pub report : Lever → (F → Bool) → Option F → List (Condition F)
  report lever test none = []
  report lever test (some t) = if test t then record { lever = lever; threshold = t } ∷ [] else []

  abbrev pub or_value : F → Option F → F
  or_value d none = d
  or_value d (some v) = v

  abbrev pub half : F
  half = dec 5 1

  -- The block on the price, in upgrades and in downgrades.
  unfoldable pub price_up : Ipo F → ℕ → F → List (Condition F)
  price_up ipo base px =
      report final_price (λ t. lt py half (mul (sub (num py 1) (div t px)) (num py 100)))
        (bisect_better ipo final_price (mul px half) px base true)

  unfoldable pub price_down : Ipo F → ℕ → F → List (Condition F)
  price_down ipo base px =
      report final_price (λ t. lt py half (mul (sub (div t px) (num py 1)) (num py 100)))
        (bisect_better ipo final_price px (mul px (dec 18 1)) base false)

  -- `ipo.qib_sub or 0.5`
  abbrev pub current_qib : Option F → F
  current_qib none = half
  current_qib (some q) = if truthy py (some q) then q else half

  -- `x if x is not None else 2.5`
  abbrev pub or_middle : Option F → F
  or_middle x = or_value (dec 25 1) x

  unfoldable pub qib_up : Ipo F → ℕ → F → List (Condition F)
  qib_up ipo base cur =
      report qib_sub (λ t. lt py (add cur half) t)
        (bisect_better ipo qib_sub cur (num py 100) base true)

  unfoldable pub qib_down : Ipo F → ℕ → F → List (Condition F)
  qib_down ipo base cur =
      report qib_sub (λ t. lt py t (sub cur (dec 2 1)))
        (bisect_better ipo qib_sub (num py 0) cur base false)

  unfoldable pub underwriter_up : Ipo F → ℕ → F → List (Condition F)
  underwriter_up ipo base cur =
      report underwriter_quality (λ t. lt py (add cur (dec 3 1)) t)
        (bisect_better ipo underwriter_quality cur (num py 5) base true)

  unfoldable pub regime_up : Ipo F → ℕ → F → List (Condition F)
  regime_up ipo base cur =
      report market_regime (λ t. lt py (add cur (dec 3 1)) t)
        (bisect_better ipo market_regime cur (num py 5) base true)

  unfoldable pub regime_down : Ipo F → ℕ → F → List (Condition F)
  regime_down ipo base cur =
      report market_regime (λ t. lt py t (sub cur (dec 3 1)))
        (bisect_better ipo market_regime (num py 0) cur base false)

  unfoldable pub ofs_down : Ipo F → ℕ → Option F → List (Condition F)
  ofs_down ipo base none = []
  ofs_down ipo base (some ofs) =
      report ofs_pct (λ t. lt py (add ofs (num py 3)) t)
        (bisect_better ipo ofs_pct ofs (num py 100) base false)

  unfoldable pub cash_up : Ipo F → ℕ → Option F → Option F → List (Condition F)
  cash_up ipo base (some cfo) (some revenue) =
      if truthy py (some revenue)
      then report cfo_m (λ t. lt py (mul cfo (dec 115 2)) t)
          (bisect_better ipo cfo_m cfo (mul revenue (dec 4 1)) base true)
      else []
  cash_up ipo base _ _ = []

  -- `if px:`
  abbrev pub at_price : (F → List (Condition F)) → Option F → List (Condition F)
  at_price conditions none = []
  at_price conditions (some px) = if truthy py (some px) then conditions px else []

  unfoldable pub upgrades : Ipo F → ℕ → List (Condition F)
  unfolding price_up qib_up underwriter_up regime_up cash_up
  upgrades ipo base =
      at_price (price_up ipo base) (or_else py ipo.final_price ipo.price_high)
      ++ ((if is_india py ipo
            then qib_up ipo base (current_qib ipo.qib_sub)
            else underwriter_up ipo base (or_middle ipo.underwriter_quality))
          ++ (regime_up ipo base (or_middle ipo.market_regime)
              ++ cash_up ipo base ipo.cfo_m ipo.revenue_m))

  unfoldable pub downgrades : Ipo F → ℕ → List (Condition F)
  unfolding price_down qib_down regime_down ofs_down
  downgrades ipo base =
      at_price (price_down ipo base) (or_else py ipo.final_price ipo.price_high)
      ++ ((if is_india py ipo then qib_down ipo base (current_qib ipo.qib_sub) else [])
          ++ (regime_down ipo base (or_middle ipo.market_regime) ++ ofs_down ipo base ipo.ofs_pct))

  -- `analyze`
  unfoldable pub analyze : Ipo F → Analysis F
  unfolding upgrades downgrades
  analyze ipo =
      let score = compute_score py settings now ipo 0 in
      let base = rank score.recommendation in
      record {
        current_recommendation = score.recommendation;
        current_overall_score = score.overall_score;
        current_confidence = score.confidence;
        upgrade_conditions = take 5 (upgrades ipo base);
        downgrade_conditions = take 5 (downgrades ipo base);
      }
