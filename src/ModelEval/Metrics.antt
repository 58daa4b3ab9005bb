-- ===== src/ModelEval/Metrics.antt =====
-- The metrics of app/services/model_eval.py: `_pr_auc`, `_ece`, `_calibration_table`, `metrics`,
-- `_rank_auc` and `bootstrap_auc_ci`, whose random draws are a parameter.
use ipointel.Base.{
  ℕ, zero, suc, ◌+◌, ◌-◌, ◌*◌, ◌/◌, Bool, ◌&&◌, ◌||◌, Option, none, some, List, [], ◌∷◌, ◌++◌, map,
  ltb, ◌==◌, min, if◌then◌else◌, length, filter, sort_by,
}
use ipointel.Runtime.{Runtime}
use ipointel.Runtime.Order.{num, lt, eq}
use ipointel.Walkforward.{
  Pair, Bucket, bucket_of, edge, outcome, auc, brier, log_loss, mean_pct, sum, neg,
}
use ipointel.Walkforward.Ranks.{ranks}
use ipointel.Market.{map_option}

module _ (py : Runtime) where
  open py use {F, leb, add, sub, mul, div, round, mean}

  -- the number of positive outcomes
  abbrev pub hits : List (Pair F) → ℕ
  hits [] = 0
  hits ((p, y) ∷ pairs) = (if y then 1 else 0) + hits pairs

  -- The loop of `_pr_auc` from place `i` on.
  unfoldable pub area_from : ℕ → ℕ → ℕ → F → F → List (Pair F) → F
  area_from pos i tp area prev_recall [] = area
  area_from pos i tp area prev_recall ((p, y) ∷ ranked) =
      let recall = div (num py (tp + 1)) (num py pos) in
      let at_hit = add area (mul (sub recall prev_recall) (div (num py (tp + 1)) (num py i))) in
      area_from pos (i + 1) (if y then tp + 1 else tp) (if y then at_hit else area)
        (if y then recall else prev_recall) ranked

  unfoldable pub pr_auc : List (Pair F) → Option F
  unfolding area_from
  pr_auc pairs =
      let pos = hits pairs in
      if pos == 0 || pos == length pairs
      then none
      else some (area_from pos 1 0 (num py 0) (num py 0) (sort_by (λ a b. leb b.0 a.0) pairs))

  -- the pairs of a bin; 100 falls into the last
  abbrev pub in_bin : F → F → Bool → Pair F → Bool
  in_bin lo hi is_last p = (leb lo p.0 && lt py p.0 hi) || (is_last && eq py p.0 (num py 100))

  abbrev pub magnitude : F → F
  magnitude x = if lt py x (num py 0) then neg py x else x

  -- the term of one bin in `_ece`, over the number of all pairs
  abbrev pub gap : ℕ → List (Pair F) → F → F
  gap n [] total = total
  gap n (p ∷ chunk) total = add total (
      mul (div (num py (length (p ∷ chunk))) (num py n)) (
        magnitude (
          sub (div (mean (map (λ q. q.0) (p ∷ chunk))) (num py 100))
            (mean (map (λ q. outcome py q.1) (p ∷ chunk))))))

  unfoldable pub gaps_from : ℕ → ℕ → List (Pair F) → F → F
  gaps_from i zero pairs total = total
  gaps_from i (suc left) pairs total =
      let chunk = filter (in_bin (edge py 10 i) (edge py 10 (i + 1)) (left == 0)) pairs in
      gaps_from (i + 1) left pairs (gap (length pairs) chunk total)

  unfoldable pub ece : List (Pair F) → Option F
  unfolding gaps_from
  ece [] = none
  ece (p ∷ pairs) = some (gaps_from 0 10 (p ∷ pairs) (num py 0))

  unfoldable pub bins_from : ℕ → ℕ → List (Pair F) → List (Bucket py)
  bins_from i zero pairs = []
  bins_from i (suc left) pairs =
      let lo = edge py 5 i in
      let hi = edge py 5 (i + 1) in
      bucket_of py lo hi (filter (in_bin lo hi (left == 0)) pairs) ++ bins_from (i + 1) left pairs

  unfoldable pub calibration_table : List (Pair F) → List (Bucket py)
  unfolding bins_from
  calibration_table pairs = bins_from 0 5 pairs

  -- What `metrics` returns; of no pairs, only the count.
  pub record Metrics : Type 0 where
    pub n : ℕ
    pub positive_rate_pct : Option F
    pub auc : Option F
    pub pr_auc : Option F
    pub brier : Option F
    pub log_loss : Option F
    pub ece : Option F
    pub calibration : List (Bucket py)

  abbrev pub rounded : ℕ → Option F → Option F
  rounded digits = map_option (λ x. round x digits)

  unfoldable pub metrics : (F → F) → List (Pair F) → Metrics
  unfolding pr_auc ece calibration_table
  metrics log [] = record {
    n = 0;
    positive_rate_pct = none;
    auc = none;
    pr_auc = none;
    brier = none;
    log_loss = none;
    ece = none;
    calibration = [];
  }
  metrics log (p ∷ pairs) = record {
    n = length (p ∷ pairs);
    positive_rate_pct = some (mean_pct py (map (λ q. outcome py q.1) (p ∷ pairs)));
    auc = rounded 3 (auc py (p ∷ pairs));
    pr_auc = rounded 3 (pr_auc (p ∷ pairs));
    brier = rounded 4 (brier py (p ∷ pairs));
    log_loss = rounded 4 (log_loss py log (p ∷ pairs));
    ece = rounded 4 (ece (p ∷ pairs));
    calibration = calibration_table (p ∷ pairs);
  }

  -- the ranks of the positive pairs
  abbrev pub positive_ranks : List F → List (Pair F) → List F
  positive_ranks (r ∷ rs) ((p, y) ∷ pairs) =
      let rest = positive_ranks rs pairs in if y then r ∷ rest else rest
  positive_ranks _ _ = []

  -- `_rank_auc`
  unfoldable pub rank_auc : List (Pair F) → Option F
  unfolding ranks
  rank_auc pairs =
      let npos = hits pairs in
      let nneg = length pairs - npos in
      if npos == 0 || nneg == 0
      then none
      else some (
          div
            (sub (sum py (positive_ranks (ranks py (map (λ p. p.0) pairs)) pairs))
              (div (num py (npos * (npos + 1))) (num py 2)))
            (num py (npos * nneg)))

  abbrev pub values : List (Option F) → List F
  values [] = []
  values (o ∷ os) = let rest = values os in elim o [ none ↦ rest | some x ↦ x ∷ rest ]

  abbrev pub nth {ℓ} : {A : Type ℓ} → List A → ℕ → Option A
  nth [] i = none
  nth (x ∷ xs) zero = some x
  nth (x ∷ xs) (suc i) = nth xs i

  abbrev pub both : Option F → Option F → Option (F × F)
  both (some a) (some b) = some (round a 3, round b 3)
  both _ _ = none

  -- `bootstrap_auc_ci`, of the resamples that were drawn, one for each round
  unfoldable pub bootstrap_auc_ci : List (Pair F) → List (List (Pair F)) → Option (F × F)
  unfolding rank_auc
  bootstrap_auc_ci pairs resamples =
      let vals = sort_by leb (values (map rank_auc resamples)) in
      let n = length vals in
      if ltb (length pairs) 20
      then none
      else if ltb n (length resamples / 2)
      then none
      else both (nth vals (n * 25 / 1000)) (nth vals (min (n - 1) (n * 975 / 1000)))
