-- ===== src/Scoring.antt =====
-- app/scoring.py: the deterministic scoring model. This file has the numeric helpers; the children
-- have the valuation, the confidence, the score and the proofs.
pub mod Valuation
pub mod Confidence
pub mod Score
pub mod Bounds
pub mod Reasons
pub mod Gate
mod Tests
use ipointel.Base.{ℕ, Bool, true, false, Option, none, some, List, [], ◌∷◌, if◌then◌else◌}
use ipointel.Runtime.{Runtime}
use ipointel.Runtime.Order.{num, lt, eq, nonzero, minimum, maximum}

-- The values of a list that are not None.
abbrev pub known {ℓ} : {A : Type ℓ} → List (Option A) → List A
known [] = []
known (none ∷ xs) = known xs
known (some x ∷ xs) = x ∷ known xs

module _ (py : Runtime) where
  open py use {F, dec, add, sub, mul, div, leb, mean}

  -- `clamp`: max(lo, min(hi, v))
  unfoldable pub clamp_to : F → F → F → F
  clamp_to lo hi v = maximum py lo (minimum py hi v)

  -- `clamp` at its default bounds
  unfoldable pub clamp : F → F
  unfolding clamp_to
  clamp v = clamp_to (num py 0) (num py 100) v

  -- `score_linear`
  unfoldable pub score_linear : Option F → F → F → F
  unfolding clamp
  score_linear none low high = num py 50
  score_linear (some v) low high =
      if eq py high low
      then num py 50
      else clamp (mul (div (sub v low) (sub high low)) (num py 100))

  -- `safe_div`
  unfoldable pub safe_div : Option F → Option F → Option F
  safe_div none b = none
  safe_div (some a) none = none
  safe_div (some a) (some b) = if nonzero py b then some (div a b) else none

  mean_or_50 : List F → F
  mean_or_50 [] = num py 50
  mean_or_50 (x ∷ xs) = mean (x ∷ xs)

  -- `avg`
  unfoldable pub avg : List (Option F) → F
  unfolding mean_or_50
  avg values = mean_or_50 (known values)

  -- `pct_growth`
  unfoldable pub pct_growth : Option F → Option F → Option F
  pct_growth none prev = none
  pct_growth (some now) none = none
  pct_growth (some now) (some prev) =
      if nonzero py prev then some (mul (sub (div now prev) (num py 1)) (num py 100)) else none

  -- `quality_5` with its default, `reverse=False`, as every caller has it
  unfoldable pub quality_5 : Option F → F
  unfolding clamp
  quality_5 none = num py 50
  quality_5 (some v) = clamp (mul v (num py 20))

  -- `subscription`
  unfoldable pub subscription : Option F → F
  subscription none = num py 50
  subscription (some v) =
      if lt py v (num py 1)
      then maximum py (num py 10) (mul (num py 35) v)
      else if lt py v (num py 3)
      then add (num py 35) (mul (sub v (num py 1)) (num py 8))
      else if lt py v (num py 10)
      then add (num py 51) (mul (sub v (num py 3)) (dec 23 1))
      else if lt py v (num py 25)
      then add (num py 67) (mul (sub v (num py 10)) (dec 8 1))
      else if lt py v (num py 50)
      then add (num py 79) (mul (sub v (num py 25)) (dec 4 1))
      else if lt py v (num py 100)
      then add (num py 89) (mul (sub v (num py 50)) (dec 14 2))
      else num py 97

  -- `probability_from_score`; 100 / (1 + exp(-(score - midpoint) / scale)), between 2 and 98
  unfoldable pub probability_from_score : F → F → F → F
  unfolding clamp_to
  probability_from_score score midpoint scale =
      clamp_to (num py 2) (num py 98) (
        div (num py 100)
          (add (num py 1) (py.exp (div (sub (num py 0) (sub score midpoint)) scale))))
