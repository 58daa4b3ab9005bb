-- ===== src/Walkforward.antt =====
-- app/services/walkforward.py: the metrics of a predictor over its pairs of a predicted percentage and
-- an outcome, the breakdown by score bands, and what a published number may be called. `math.log`, the
-- square root and `statistics.median` are parameters.
pub mod Ranks
pub mod Bands
mod Tests
use ipointel.Base.{
  ℕ, zero, suc, ◌+◌, ◌*◌, String, Bool, true, false, not, ◌&&◌, ◌||◌, Option, none, some, List, [],
  ◌∷◌, ◌++◌, map, ltb, leb, ◌==◌, if◌then◌else◌, length, filter, sort_by, zip_with,
}
use ipointel.Runtime.{Runtime}
use ipointel.Runtime.Order.{num, lt, eq, minimum, maximum, nonzero}
use ipointel.Walkforward.Ranks.{ranks}

abbrev pub min_sample : ℕ
min_sample = 20

abbrev pub deployed_research_model : Bool
deployed_research_model = false

-- A predicted percentage and whether the outcome was positive.
abbrev pub Pair : Type 0 → Type 0
Pair F = F × Bool

module _ (py : Runtime) where
  open py use {F, dec, add, sub, mul, div, round, mean}
  open py use {leb as leb_f}

  -- `sum(xs)`, from the left
  unfoldable pub sum_from : F → List F → F
  sum_from total [] = total
  sum_from total (x ∷ xs) = sum_from (add total x) xs

  abbrev pub sum : List F → F
  sum xs = sum_from (num py 0) xs

  abbrev pub square : F → F
  square x = mul x x

  -- `-x`
  abbrev pub neg : F → F
  neg x = sub (num py 0) x

  -- the outcome as the number 1 or 0
  abbrev pub outcome : Bool → F
  outcome y = if y then num py 1 else num py 0

  -- `round(x * 100, 1)` of `mean(...)`, and of a share of a count
  abbrev pub mean_pct : List F → F
  mean_pct xs = round (mul (mean xs) (num py 100)) 1

  abbrev pub positives : List (Pair F) → List F
  positives pairs = map (λ p. p.0) (filter (λ p. p.1) pairs)

  abbrev pub negatives : List (Pair F) → List F
  negatives pairs = map (λ p. p.0) (filter (λ p. not p.1) pairs)

  unfoldable pub wins_against : F → F → List F → F
  wins_against wins p [] = wins
  wins_against wins p (n ∷ ns) =
      wins_against
        (if lt py n p then add wins (num py 1) else if eq py p n then add wins (dec 5 1) else wins)
        p ns

  unfoldable pub wins_of : F → List F → List F → F
  unfolding wins_against
  wins_of wins [] ns = wins
  wins_of wins (p ∷ ps) ns = wins_of (wins_against wins p ns) ps ns

  -- `_auc`
  unfoldable pub auc : List (Pair F) → Option F
  unfolding wins_of
  auc pairs =
      let ps = positives pairs in
      let ns = negatives pairs in
      if length ps == 0 || length ns == 0
      then none
      else some (div (wins_of (num py 0) ps ns) (num py (length ps * length ns)))

  -- `_brier`, of a list that is not empty
  unfoldable pub brier : List (Pair F) → Option F
  unfolding sum_from
  brier [] = none
  brier (p ∷ pairs) = some (
      div (sum (map (λ q. square (sub (div q.0 (num py 100)) (outcome q.1))) (p ∷ pairs)))
        (num py (length (p ∷ pairs))))

  -- the term of one pair in `_log_loss`
  abbrev pub loss : (F → F) → Pair F → F
  loss log (p, y) =
      let eps = dec 1 6 in
      let pr = minimum py (sub (num py 1) eps) (maximum py eps (div p (num py 100))) in
      neg (
        add (mul (outcome y) (log pr)) (mul (sub (num py 1) (outcome y)) (log (sub (num py 1) pr))))

  unfoldable pub log_loss : (F → F) → List (Pair F) → Option F
  unfolding sum_from
  log_loss log [] = none
  log_loss log (p ∷ pairs) =
      some (div (sum (map (loss log) (p ∷ pairs))) (num py (length (p ∷ pairs))))

  -- `_spearman`; both lists have the same length.
  unfoldable pub spearman : (F → F) → List F → List F → Option F
  unfolding sum_from ranks
  spearman sqrt xs ys =
      let rx = ranks py xs in
      let ry = ranks py ys in
      let dx = map (λ a. sub a (mean rx)) rx in
      let dy = map (λ b. sub b (mean ry)) ry in
      let top = sum (zip_with mul dx dy) in
      let bottom = sqrt (mul (sum (map square dx)) (sum (map square dy))) in
      if ltb (length xs) 5 then none else if nonzero py bottom then some (div top bottom) else none

  -- A row of a calibration table: the bounds of its range, how many pairs, and the two percentages.
  pub record Bucket : Type 0 where
    pub low : F
    pub high : F
    pub n : ℕ
    pub avg_predicted_pct : F
    pub actual_positive_pct : F

  abbrev pub bucket_of : F → F → List (Pair F) → List Bucket
  bucket_of lo hi [] = []
  bucket_of lo hi (p ∷ chunk) =
      record {
        low = lo;
        high = hi;
        n = length (p ∷ chunk);
        avg_predicted_pct = round (mean (map (λ q. q.0) (p ∷ chunk))) 1;
        actual_positive_pct = mean_pct (map (λ q. outcome q.1) (p ∷ chunk));
      }
      ∷ []

  -- `i * 100 / buckets`
  abbrev pub edge : ℕ → ℕ → F
  edge buckets i = div (num py (i * 100)) (num py buckets)

  -- the last `left` buckets, from number `i` on
  unfoldable pub buckets_from : ℕ → ℕ → ℕ → List (Pair F) → List Bucket
  buckets_from buckets i zero pairs = []
  buckets_from buckets i (suc left) pairs =
      let lo = edge buckets i in
      let hi = edge buckets (i + 1) in
      bucket_of lo hi (filter (λ p. leb_f lo p.0 && (lt py p.0 hi || left == 0)) pairs)
      ++ buckets_from buckets (i + 1) left pairs

  -- `_calibration`
  unfoldable pub calibration : List (Pair F) → List Bucket
  unfolding buckets_from
  calibration pairs = if length pairs == 0 then [] else buckets_from 5 0 5 pairs

-- The release gate of a target as `_semantics` reads it; the second tier may be absent.
pub record Gate : Type 0 where
  pub passed : Bool
  pub probability_allowed : Option Bool

pub data Label : Type 0 where
  probability score : Label

pub data Reason : Type 0 where
  model_deployed not_deployed gate_not_passed : Reason

pub record Semantics : Type 0 where
  pub calibrated : Bool
  pub label : Label
  pub research_gate_passed : Bool
  pub reason : Reason

-- `_semantics`, without the figures that it repeats from the research
unfoldable pub semantics : Option Gate → Semantics
semantics gate =
    let passed : Bool = elim gate [ none ↦ false | some g ↦ g.passed ] in
    let prob_ok : Bool = elim gate [
      | none ↦ false
      | some g ↦ elim g.probability_allowed [ none ↦ g.passed | some b ↦ b ]
    ] in
    let calibrated = passed && (prob_ok && deployed_research_model) in
    record {
      calibrated = calibrated;
      label = if calibrated then probability else score;
      research_gate_passed = passed;
      reason =
          if calibrated then model_deployed else if passed then not_deployed else gate_not_passed;
    }
