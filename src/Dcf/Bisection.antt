-- ===== src/Dcf/Bisection.antt =====
-- What the bisection keeps.
use ipointel.Base.{ℕ, zero, suc, ◌≡◌, refl, inl, inr, true, false, Option, none, some, Bool-cases}
use ipointel.Runtime.{Runtime}
use ipointel.Runtime.Order.{lt}
use ipointel.Dcf.{halve, bisect, middle}

module _ (py : Runtime) (pow : py.F → ℕ → py.F) where
  -- The value at the low end lies below the target, and at the high end it does not.
  abbrev pub IsBracket : (py.F → Option py.F) → py.F → Option (py.F × py.F) → Type 0
  IsBracket value target none = Unit
  IsBracket value target (some (lo, hi)) =
      ((v : py.F) × (value lo ≡ some v) × (lt py v target ≡ true))
      × ((v : py.F) × (value hi ≡ some v) × (lt py v target ≡ false))

  halve-IsBracket :
      (value : py.F → Option py.F) (target lo hi : py.F)
      → IsBracket value target (some (lo, hi))
      → (o : Option py.F) → value (middle py pow lo hi) ≡ o
      → IsBracket value target (halve py pow value target lo hi)
  unfolding halve
  halve-IsBracket value target lo hi h none = λ e. rw e tt
  halve-IsBracket value target lo hi h (some v) = elim (Bool-cases (lt py v target)) [
    | inl k ↦ λ e. rw e (rw k ((v, e, k), h.1))
    | inr k ↦ λ e. rw e (rw k (h.0, (v, e, k)))
  ]

  -- However many rounds the bisection runs, the growth rates between which it ends still enclose the
  -- target, if those from which it starts do.
  pub bisect-IsBracket :
      (value : py.F → Option py.F) (target : py.F) (n : ℕ) (range : Option (py.F × py.F))
      → IsBracket value target range
      → IsBracket value target (bisect py pow value target n range)
  unfolding bisect
  bisect-IsBracket value target zero range h = h
  bisect-IsBracket value target (suc n) none h = tt
  bisect-IsBracket value target (suc n) (some (lo, hi)) h =
      bisect-IsBracket value target n (halve py pow value target lo hi)
        (halve-IsBracket value target lo hi h (value (middle py pow lo hi)) refl)
