-- ===== src/ModelEval/Market.antt =====
-- `_evaluate_target`, `evaluate_market` and `forward_graded_by_country` of app/services/model_eval.py.
use text.Mathlib.Text.{◌==◌ as str_eq}
use ipointel.Base.{
  ℕ, String, Bool, true, false, not, ◌&&◌, Option, none, some, List, [], ◌∷◌, map, ltb, ◌==◌,
  if◌then◌else◌, is_some, is_empty, length, filter, any,
}
use ipointel.Base.Dict.{Dict}
use ipointel.Runtime.{Runtime}
use ipointel.Runtime.Order.{num, truthy}
use ipointel.Walkforward.{Pair}
use ipointel.ModelEval.{Target, Row, Features, all_features}
use ipointel.ModelEval.Available.{Dataset, production, research}
use ipointel.ModelEval.Metrics.{Metrics, metrics, bootstrap_auc_ci}
use ipointel.ModelEval.WalkForward.{Fold, label_of, walk_forward}
use ipointel.ModelEval.Gate.{Verdict, release_gate, segment_stable}

abbrev pub min_train : ℕ
min_train = 60

abbrev pub is_production : Dataset → Bool
is_production production = true
is_production research = false

module _ (py : Runtime) (log sqrt : py.F → py.F)
    (resample : List (Pair py.F) → List (List (Pair py.F))) where
  open py use {F, mul, div, round}

  -- What `_evaluate_target` returns.
  pub record TargetReport : Type 0 where
    pub usable_rows : ℕ
    pub out_of_sample : Metrics py
    pub auc_ci95 : Option (F × F)
    pub base_rate : Metrics py
    pub constant_50 : Option (Metrics py)
    pub heuristic_v2 : Option (Metrics py)
    pub folds : List (Fold F)
    pub gate : Verdict py

  abbrev pub if_full : Bool → Metrics py → Option (Metrics py)
  if_full full m = if full then some m else none

  -- `_evaluate_target`; the AUC of the operating companies is there where the market has a segment.
  unfoldable pub evaluate_target :
      List (Row F) → Target → Bool → ℕ → Option (Option F) → Bool → TargetReport
  evaluate_target rows target leakage_free forward_graded segment full_baselines =
      let wf = walk_forward py sqrt all_features target min_train rows in
      let model = metrics py log wf.model_pairs in
      let base = metrics py log wf.base_rate_pairs in
      let seg_ok : Option Bool = elim segment [
        | none ↦ none
        | some auc ↦ some (segment_stable py model.auc auc)
      ] in
      let ci = bootstrap_auc_ci py wf.model_pairs (resample wf.model_pairs) in
      record {
        usable_rows = length (filter (λ r. is_some (label_of target r)) rows);
        out_of_sample = model;
        auc_ci95 = ci;
        base_rate = base;
        constant_50 = if_full full_baselines (metrics py log wf.constant_pairs);
        heuristic_v2 = if_full full_baselines (metrics py log wf.heuristic_pairs);
        folds = wf.folds;
        gate = release_gate py model base wf.folds leakage_free ci seg_ok forward_graded;
      }

  -- What `evaluate_market` returns; `segment` is there where some companies, but not all, are operating.
  pub record MarketReport : Type 0 where
    pub country : String
    pub dataset : Dataset
    pub leakage_free : Bool
    pub rows : ℕ
    pub feature_coverage_pct : List (Option F)
    pub segment : Option (ℕ × (Target → TargetReport))
    pub targets : Target → TargetReport

  abbrev pub coverage : List (Row F) → (Features F → Option F) → Option F
  coverage [] get = none
  coverage (r ∷ rows) get =
      let k = length (filter (λ x. is_some (get x.features)) (r ∷ rows)) in
      some (round (mul (div (num py k) (num py (length (r ∷ rows)))) (num py 100)) 1)

  abbrev pub operating : List (Row F) → List (Row F)
  operating rows = filter (λ r. not (truthy py r.features.is_spac)) rows

  abbrev pub has_segment : List (Row F) → Bool
  has_segment rows = ltb 0 (length (operating rows)) && ltb (length (operating rows)) (length rows)

  unfoldable pub evaluate_market : List (Row F) → String → Dataset → ℕ → MarketReport
  unfolding evaluate_target
  evaluate_market rows country dataset forward_graded =
      let leakage_free = is_production dataset in
      let alone : Target → TargetReport =
        λ t. evaluate_target (operating rows) t leakage_free forward_graded none false in
      let segment_of : Target → Option (Option F) =
        λ t. if has_segment rows then some (alone t).out_of_sample.auc else none in
      record {
        country = country;
        dataset = dataset;
        leakage_free = leakage_free;
        rows = length rows;
        feature_coverage_pct = map (coverage rows) all_features;
        segment = if has_segment rows then some (length (operating rows), alone) else none;
        targets = λ t. evaluate_target rows t leakage_free forward_graded (segment_of t) true;
      }

-- A row of the forward ledger, as the count reads it.
pub record Graded : Type 0 where
  pub is_graded : Bool
  pub country : String
  pub ipo_id : ℕ

-- `ids.add(id)`
abbrev pub add_id : ℕ → List ℕ → List ℕ
add_id id ids = if any (λ i. i == id) ids then ids else id ∷ ids

-- `ipos.setdefault(country, set()).add(id)`
unfoldable pub add_graded : String → ℕ → Dict (List ℕ) → Dict (List ℕ)
add_graded country id [] = (country, id ∷ []) ∷ []
add_graded country id ((c, ids) ∷ d) =
    let rest = add_graded country id d in
    if str_eq c country then (c, add_id id ids) ∷ d else (c, ids) ∷ rest

unfoldable pub graded_sets : Dict (List ℕ) → List Graded → Dict (List ℕ)
unfolding add_graded
graded_sets d [] = d
graded_sets d (g ∷ ledger) =
    graded_sets
      (if g.is_graded
        then add_graded (if is_empty g.country then "?" else g.country) g.ipo_id d
        else d)
      ledger

-- `forward_graded_by_country`
unfoldable pub forward_graded_by_country : List Graded → Dict ℕ
unfolding graded_sets
forward_graded_by_country ledger = map (λ e. (e.0, length e.1)) (graded_sets [] ledger)
