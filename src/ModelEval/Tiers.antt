-- ===== src/ModelEval/Tiers.antt =====
-- What a verdict of the release gate means, and which markets can get one.
use ipointel.Base.{
  ℕ, ◌≤◌, ◌<◌, ap, ◌≡◌, ◌≢◌, refl, String, Bool, true, false, Option, none, some, List, arith,
  subst, some_injective,
}
use ipointel.Runtime.{Runtime, RuntimeLaws}
use ipointel.Runtime.Order.{num, or_zero}
use ipointel.Walkforward.{Pair}
use ipointel.ModelEval.{Target, Row}
use ipointel.ModelEval.Available.{Dataset, research}
use ipointel.ModelEval.Metrics.{Metrics}
use ipointel.ModelEval.WalkForward.{Fold}
use ipointel.ModelEval.Gate.{
  release_gate, screening_of, production_of, segment_stable, stability, gain, beats, fold_aucs,
  is_not_false,
}
use ipointel.ModelEval.Market.{
  evaluate_target, evaluate_market, is_production, operating, has_segment,
}

module _ (py : Runtime) where
  open py use {F, dec}

  gain-beats :
      (mb bb : Option F)
      → py.leb (dec 2 2) (num py 0) ≡ false
      → py.leb (dec 2 2) (gain py mb bb) ≡ true
      → beats py mb bb ≡ true
  unfolding gain
  gain-beats none bb z h = cc
  gain-beats (some m) none z h = cc
  gain-beats (some m) (some b) z h = ground arith

  -- A model that passes the production tier also passes the screening tier, if its AUC meets that tier's
  -- bound of 0.58, which an interval above 0.5 alone does not give; 0.02 is taken to be above 0.
  pub release_gate-screening :
      (model base : Metrics py) (folds : List (Fold F)) (leakage_free : Bool) (ci : Option (F × F))
      (stable : Option Bool) (graded : ℕ)
      → RuntimeLaws py
      → py.leb (dec 2 2) (num py 0) ≡ false
      → (release_gate py model base folds leakage_free ci stable graded).passed ≡ true
      → py.leb (dec 58 2) (or_zero py model.auc) ≡ true
      → (release_gate py model base folds leakage_free ci stable graded).screening_passed ≡ true
  unfolding release_gate screening_of production_of
  release_gate-screening model base folds leakage_free ci stable graded laws z h a = ground (
    arith,
    gain-beats model.brier base.brier z,
    laws.le_trans (dec 6 1) (dec 7 1) (stability py (fold_aucs py folds)),
    laws.dec_mono 6 7 1 (omega arith),
  )

  probability_passed :
      (model base : Metrics py) (folds : List (Fold F)) (leakage_free : Bool) (ci : Option (F × F))
      (stable : Option Bool) (graded : ℕ)
      → let v = release_gate py model base folds leakage_free ci stable graded in
        v.passed ≡ false → v.probability_allowed ≡ false
  unfolding release_gate
  probability_passed model base folds leakage_free ci stable graded h = ground arith

  -- A verdict that passes: leakage was ruled out, there are 300 rows, and the segment is not unstable.
  passed_needs :
      (model base : Metrics py) (folds : List (Fold F)) (leakage_free : Bool) (ci : Option (F × F))
      (stable : Option Bool) (graded : ℕ)
      → (release_gate py model base folds leakage_free ci stable graded).passed ≡ true
      → (leakage_free ≡ true) × (300 ≤ model.n) × (is_not_false py stable ≡ true)
  unfolding release_gate production_of
  passed_needs model base folds leakage_free ci stable graded h =
      (ground arith, ground arith, ground arith)

  segment_needs :
      (full : Option F) (auc : Option F)
      → is_not_false py (some (segment_stable py full auc)) ≡ true
      → (s : F) × (auc ≡ some s) × (py.leb s (dec 5 1) ≡ false)
  unfolding segment_stable
  segment_needs full none h = cc
  segment_needs none (some s) h = (s, refl, ground arith)
  segment_needs (some f) (some s) h = (s, refl, ground arith)

not_true : (b : Bool) → b ≢ true → b ≡ false
not_true true h = absurd (h refl)
not_true false h = refl

module _ (py : Runtime) (log sqrt : py.F → py.F)
    (resample : List (Pair py.F) → List (List (Pair py.F))) where
  open py use {F, dec}

  abbrev alone_auc : List (Row F) → Dataset → ℕ → Target → Option F
  alone_auc rows dataset graded target =
      (evaluate_target py log sqrt resample (operating py log sqrt resample rows) target
        (is_production dataset) graded none false).out_of_sample.auc

  target_needs :
      (rows : List (Row F)) (target : Target) (leakage_free : Bool) (graded : ℕ)
      (segment : Option (Option F)) (full : Bool)
      → let report =
          evaluate_target py log sqrt resample rows target leakage_free graded segment full in
        report.gate.passed ≡ true
        → (leakage_free ≡ true)
          × (300 ≤ report.out_of_sample.n)
          × ((auc : Option F)
              → segment ≡ some auc
              → (s : F) × (auc ≡ some s) × (py.leb s (dec 5 1) ≡ false))
  unfolding evaluate_target
  target_needs rows target leakage_free graded none full h =
      let n = passed_needs py _ _ _ _ _ _ _ h in (n.0, n.1, λ auc e. cc)
  target_needs rows target leakage_free graded (some a) full h =
      let n = passed_needs py _ _ _ _ _ _ _ h in
      (
        n.0,
        n.1,
        λ auc e.
            subst (λ x. (s : F) × (x ≡ some s) × (py.leb s (dec 5 1) ≡ false))
              (some_injective a auc e) (segment_needs py _ a n.2),
      )

  -- Why a market's figures may not be published for a target: later data may have entered them, there
  -- are too few rows, or the operating companies alone, where these are some but not all of the
  -- companies, have no AUC or one of at most 0.5.
  pub data IsUnfit (rows : List (Row F)) (country : String) (dataset : Dataset) (graded : ℕ)
      (target : Target) : Type 0 where
    research_data : dataset ≡ research → IsUnfit rows country dataset graded target
    too_few :
        ((evaluate_market py log sqrt resample rows country dataset graded).targets
            target).out_of_sample.n
          < 300
        → IsUnfit rows country dataset graded target
    no_segment_auc :
        has_segment py log sqrt resample rows ≡ true
        → alone_auc rows dataset graded target ≡ none
        → IsUnfit rows country dataset graded target
    weak_segment :
        (s : F)
        → has_segment py log sqrt resample rows ≡ true
        → alone_auc rows dataset graded target ≡ some s
        → py.leb s (dec 5 1) ≡ true
        → IsUnfit rows country dataset graded target

  fails_at :
      (rows : List (Row F)) (country : String) (dataset : Dataset) (graded : ℕ) (target : Target)
      → IsUnfit rows country dataset graded target
      → ((evaluate_market py log sqrt resample rows country dataset graded).targets
          target).gate.passed
        ≢ true
  unfolding evaluate_market
  fails_at rows country dataset graded target (research_data e) h =
      let n = target_needs rows target _ graded _ true h in cc (n.0, ap is_production e)
  fails_at rows country dataset graded target (too_few l) h =
      let n = target_needs rows target _ graded _ true h in omega (arith, n.1)
  fails_at rows country dataset graded target (no_segment_auc e a) h =
      let n = target_needs rows target _ graded _ true h in
      let s = n.2 (alone_auc rows dataset graded target) (rw e refl) in cc (s.1, a)
  fails_at rows country dataset graded target (weak_segment x e a l) h =
      let n = target_needs rows target _ graded _ true h in
      let s = n.2 (alone_auc rows dataset graded target) (rw e refl) in cc (s.1, s.2, a, l)

  gate_probability :
      (rows : List (Row F)) (target : Target) (leakage_free : Bool) (graded : ℕ)
      (segment : Option (Option F)) (full : Bool)
      → let gate =
          (evaluate_target py log sqrt resample rows target leakage_free graded segment
            full).gate in
        gate.passed ≡ false → gate.probability_allowed ≡ false
  unfolding evaluate_target
  gate_probability rows target leakage_free graded segment full h =
      probability_passed py _ _ _ _ _ _ _ h

  -- A market that is unfit for a target passes neither the production tier nor the probability tier,
  -- whatever its other figures are.
  pub evaluate_market-IsUnfit :
      (rows : List (Row F)) (country : String) (dataset : Dataset) (graded : ℕ) (target : Target)
      → IsUnfit rows country dataset graded target
      → let gate =
          ((evaluate_market py log sqrt resample rows country dataset graded).targets
            target).gate in
        (gate.passed ≡ false) × (gate.probability_allowed ≡ false)
  unfolding evaluate_market
  evaluate_market-IsUnfit rows country dataset graded target u =
      let failed = not_true _ (fails_at rows country dataset graded target u) in
      (failed, gate_probability rows target _ graded _ true failed)
