-- ===== src/ModelEval/WalkForward.antt =====
-- `walk_forward` of app/services/model_eval.py: for each year a model of the years before it.
use ipointel.Base.{
  ℕ, Bool, not, ◌||◌, Option, none, some, List, [], ◌∷◌, ◌++◌, map, ltb, ◌==◌, if◌then◌else◌,
  is_some, length, filter, any, zip_with,
}
use ipointel.Runtime.{Runtime}
use ipointel.Runtime.Order.{num}
use ipointel.Walkforward.{Pair, auc, brier, outcome}
use ipointel.Market.{map_option}
use ipointel.ModelEval.{Target, listing, twelve_months, twelve_months_relative, Row, Features}
use ipointel.ModelEval.Numerics.{standardize, fit_logistic, predict}

-- `getattr(r, TARGET_ATTRS[target])`, and `h_attr`
abbrev pub label_of : {F : Type 0} → Target → Row F → Option Bool
label_of listing r = r.y_listing
label_of twelve_months r = r.y_12m
label_of twelve_months_relative r = r.y_12m_relative

abbrev pub heuristic_of : {F : Type 0} → Target → Row F → Option F
heuristic_of listing r = r.heuristic_listing_prob
heuristic_of _ r = r.heuristic_long_prob

abbrev pub year_of : {F : Type 0} → Row F → ℕ
year_of r = r.listing_date.year

-- `sorted({...})`: the years in order, each once
unfoldable pub add_year : ℕ → List ℕ → List ℕ
add_year y [] = y ∷ []
add_year y (x ∷ years) =
    let rest = add_year y years in
    if ltb y x then y ∷ x ∷ years else if y == x then x ∷ years else x ∷ rest

unfoldable pub years_of : {F : Type 0} → List (Row F) → List ℕ
unfolding add_year
years_of [] = []
years_of (r ∷ rows) = add_year (year_of r) (years_of rows)

abbrev pub labels : {F : Type 0} → Target → List (Row F) → List Bool
labels target [] = []
labels target (r ∷ rows) =
    let rest = labels target rows in elim (label_of target r) [ none ↦ rest | some y ↦ y ∷ rest ]

-- `len(set(ys)) < 2`
abbrev pub is_single_class : List Bool → Bool
is_single_class ys = not (any (λ y. y) ys) || not (any not ys)

-- An entry of `res.folds`, with the figures where the fold was not skipped.
pub record Scores (F : Type 0) : Type 0 where
  pub train_positive_pct : F
  pub auc : Option F
  pub brier : Option F
  pub design_columns : ℕ

pub record Fold (F : Type 0) : Type 0 where
  pub year : ℕ
  pub n_train : ℕ
  pub n_test : ℕ
  pub scores : Option (Scores F)

-- A fold with the pairs by which it extends the result.
pub record Outcome (F : Type 0) : Type 0 where
  pub fold : Fold F
  pub model_pairs : List (Pair F)
  pub base_rate_pairs : List (Pair F)
  pub constant_pairs : List (Pair F)
  pub heuristic_pairs : List (Pair F)

-- `WalkForwardResult`
pub record Result (F : Type 0) : Type 0 where
  pub folds : List (Fold F)
  pub model_pairs : List (Pair F)
  pub base_rate_pairs : List (Pair F)
  pub constant_pairs : List (Pair F)
  pub heuristic_pairs : List (Pair F)

abbrev pub concat : {A B : Type 0} → (A → List B) → List A → List B
concat f [] = []
concat f (x ∷ xs) = f x ++ concat f xs

module _ (py : Runtime) (sqrt : py.F → py.F) (names : List (Features py.F → Option py.F))
    (target : Target) (min_train : ℕ) where
  open py use {F, dec, mul, round, mean}

  -- the pairs of a value for each test row with its heuristic value
  abbrev pub heuristic_pairs_of : List (Row F) → List (Pair F)
  heuristic_pairs_of [] = []
  heuristic_pairs_of (r ∷ rows) =
      let rest = heuristic_pairs_of rows in
      elim (label_of target r) [
        | none ↦ rest
        | some y ↦ elim (heuristic_of target r) [ none ↦ rest | some p ↦ (p, y) ∷ rest ]
      ]

  unfoldable pub skipped : ℕ → List (Row F) → List (Row F) → Outcome F
  skipped yr train test = record {
    fold = record { year = yr; n_train = length train; n_test = length test; scores = none };
    model_pairs = [];
    base_rate_pairs = [];
    constant_pairs = [];
    heuristic_pairs = [];
  }

  unfoldable pub fitted : ℕ → List (Row F) → List (Row F) → Outcome F
  unfolding standardize fit_logistic predict
  fitted yr train test =
      let ys = labels target train in
      let (xtr, xte, design) =
        standardize py sqrt (map (λ r. r.features) train) (map (λ r. r.features) test) names in
      let w = fit_logistic py sqrt xtr (map (outcome py) ys) in
      let base = mul (mean (map (outcome py) ys)) (num py 100) in
      let fold_pairs = zip_with (λ p y. (p, y)) (predict py sqrt w xte) (labels target test) in
      record {
        fold = record {
          year = yr;
          n_train = length train;
          n_test = length test;
          scores = some (record {
            train_positive_pct = round base 1;
            auc = map_option (λ x. round x 3) (auc py fold_pairs);
            brier = map_option (λ x. round x 4) (brier py fold_pairs);
            design_columns = design;
          });
        };
        model_pairs = fold_pairs;
        base_rate_pairs = map (λ y. (base, y)) (labels target test);
        constant_pairs = map (λ y. (num py 50, y)) (labels target test);
        heuristic_pairs = heuristic_pairs_of test;
      }

  -- The fold of a year, from the rows that have the target.
  unfoldable pub fold_at : List (Row F) → ℕ → Outcome F
  unfolding skipped fitted
  fold_at usable yr =
      let train = filter (λ r. ltb (year_of r) yr) usable in
      let test = filter (λ r. year_of r == yr) usable in
      if ltb (length train) min_train || (is_single_class (labels target train) || length test == 0)
      then skipped yr train test
      else fitted yr train test

  unfoldable pub outcomes : List (Row F) → List (Outcome F)
  unfolding fold_at years_of
  outcomes rows =
      let usable = filter (λ r. is_some (label_of target r)) rows in
      map (fold_at usable) (years_of usable)

  unfoldable pub walk_forward : List (Row F) → Result F
  unfolding outcomes
  walk_forward rows =
      let all = outcomes rows in
      record {
        folds = map (λ o. o.fold) all;
        model_pairs = concat (λ o. o.model_pairs) all;
        base_rate_pairs = concat (λ o. o.base_rate_pairs) all;
        constant_pairs = concat (λ o. o.constant_pairs) all;
        heuristic_pairs = concat (λ o. o.heuristic_pairs) all;
      }
