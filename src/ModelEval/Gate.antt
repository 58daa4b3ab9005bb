-- ===== src/ModelEval/Gate.antt =====
-- `release_gate` and `segment_stable` of app/services/model_eval.py. The thresholds that the answer
-- repeats are left out.
use ipointel.Base.{
  ℕ, Bool, true, false, not, ◌&&◌, ◌||◌, Option, none, some, List, [], ◌∷◌, leb, if◌then◌else◌,
  length, filter,
}
use ipointel.Runtime.{Runtime}
use ipointel.Runtime.Order.{num, lt, nonzero, or_zero}
use ipointel.ModelEval.WalkForward.{Fold}
use ipointel.ModelEval.Metrics.{Metrics}

pub record Screening : Type 0 where
  pub sample_size_ok : Bool
  pub auc_ok : Bool
  pub beats_base_rate_brier : Bool
  pub fold_stability_ok : Bool

pub record Production : Type 0 where
  pub no_known_leakage : Bool
  pub sample_size_ok : Bool
  pub discrimination_ok : Bool
  pub brier_gain_ok : Bool
  pub fold_stability_ok : Bool
  pub segment_stability_ok : Bool

pub record Probability : Type 0 where
  pub production_passed : Bool
  pub calibration_ok : Bool
  pub forward_evidence_ok : Bool

-- `all(checks.values())`
abbrev pub all_screening : Screening → Bool
all_screening c = c.sample_size_ok && (c.auc_ok && (c.beats_base_rate_brier && c.fold_stability_ok))

abbrev pub all_production : Production → Bool
all_production c =
    c.no_known_leakage
    && (c.sample_size_ok
        && (c.discrimination_ok
            && (c.brier_gain_ok && (c.fold_stability_ok && c.segment_stability_ok))))

abbrev pub all_probability : Probability → Bool
all_probability c = c.production_passed && (c.calibration_ok && c.forward_evidence_ok)

module _ (py : Runtime) where
  open py use {F, dec, sub, mul, div, round}
  open py use {leb as leb_f}

  -- What `release_gate` returns.
  pub record Verdict : Type 0 where
    pub passed : Bool
    pub screening_passed : Bool
    pub probability_allowed : Bool
    pub checks : Production
    pub screening_checks : Screening
    pub probability_checks : Probability
    pub fold_stability_share : F
    pub brier_gain_pct : F
    pub auc_ci95 : Option (F × F)
    pub forward_graded : ℕ

  -- the AUC figures of the folds that have one
  abbrev pub fold_aucs : List (Fold F) → List F
  fold_aucs [] = []
  fold_aucs (f ∷ folds) =
      let rest = fold_aucs folds in
      elim f.scores [ none ↦ rest | some s ↦ elim s.auc [ none ↦ rest | some a ↦ a ∷ rest ] ]

  -- `stable`
  unfoldable pub stability : List F → F
  stability [] = num py 0
  stability (a ∷ scored) =
      div (num py (length (filter (λ x. lt py (dec 5 1) x) (a ∷ scored))))
        (num py (length (a ∷ scored)))

  abbrev pub beats : Option F → Option F → Bool
  beats (some mb) (some bb) = lt py mb bb
  beats _ _ = false

  unfoldable pub gain : Option F → Option F → F
  gain (some mb) (some bb) = if lt py mb bb && nonzero py bb then div (sub bb mb) bb else num py 0
  gain _ _ = num py 0

  abbrev pub interval_above : Option (F × F) → Bool
  interval_above none = false
  interval_above (some (lo, hi)) = lt py (dec 5 1) lo

  abbrev pub at_most : F → Option F → Bool
  at_most bound none = false
  at_most bound (some x) = leb_f x bound

  abbrev pub is_not_false : Option Bool → Bool
  is_not_false (some false) = false
  is_not_false _ = true

  unfoldable pub screening_of : Metrics py → Metrics py → List F → Screening
  unfolding stability
  screening_of model base scored = record {
    sample_size_ok = leb 100 model.n;
    auc_ok = leb_f (dec 58 2) (or_zero py model.auc);
    beats_base_rate_brier = beats model.brier base.brier;
    fold_stability_ok = leb_f (dec 6 1) (stability scored);
  }

  unfoldable pub production_of :
      Metrics py → Metrics py → List F → Bool → Option (F × F) → Option Bool → Production
  unfolding stability gain
  production_of model base scored leakage_free auc_ci segment_stable = record {
    no_known_leakage = leakage_free;
    sample_size_ok = leb 300 model.n;
    discrimination_ok = leb_f (dec 60 2) (or_zero py model.auc) || interval_above auc_ci;
    brier_gain_ok = leb_f (dec 2 2) (gain model.brier base.brier);
    fold_stability_ok = leb_f (dec 7 1) (stability scored) && leb 3 (length scored);
    segment_stability_ok = is_not_false segment_stable;
  }

  unfoldable pub release_gate :
      Metrics py → Metrics py → List (Fold F) → Bool → Option (F × F) → Option Bool → ℕ → Verdict
  unfolding screening_of production_of stability gain
  release_gate model base folds leakage_free auc_ci segment_stable forward_graded =
      let scored = fold_aucs folds in
      let screening = screening_of model base scored in
      let production = production_of model base scored leakage_free auc_ci segment_stable in
      let probability : Probability = record {
        production_passed = all_production production;
        calibration_ok = at_most (dec 5 2) model.ece;
        forward_evidence_ok = leb 50 forward_graded;
      } in
      record {
        passed = all_production production;
        screening_passed = all_screening screening;
        probability_allowed = all_probability probability;
        checks = production;
        screening_checks = screening;
        probability_checks = probability;
        fold_stability_share = round (stability scored) 2;
        brier_gain_pct = round (mul (gain model.brier base.brier) (num py 100)) 2;
        auc_ci95 = auc_ci;
        forward_graded = forward_graded;
      }

  unfoldable pub segment_stable : Option F → Option F → Bool
  segment_stable full none = false
  segment_stable none (some s) = not (leb_f s (dec 5 1))
  segment_stable (some f) (some s) = not (leb_f s (dec 5 1)) && leb_f (sub f s) (dec 10 2)
