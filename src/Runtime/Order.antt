-- ===== src/Runtime/Order.antt =====
-- Python's comparisons, `min`, `max` and truth of floats, from `<=`.
use ipointel.Base.{
  ℕ, ◌≡◌, inl, inr, Bool, true, false, ◌&&◌, not, Option, none, some, if◌then◌else◌,
}
use ipointel.Runtime.{Runtime, RuntimeLaws}

module _ (py : Runtime) where
  open py use {F, leb, dec}

  abbrev pub num : ℕ → F
  num n = dec n 0

  -- a < b, and a == b
  abbrev pub lt : F → F → Bool
  lt a b = not (leb b a)

  abbrev pub eq : F → F → Bool
  eq a b = leb a b && leb b a

  -- `min(a, b)` and `max(a, b)` keep the first of equal values.
  abbrev pub minimum : F → F → F
  minimum a b = if lt b a then b else a

  abbrev pub maximum : F → F → F
  maximum a b = if lt a b then b else a

  -- `bool(x)` of a number, and of a number or None
  abbrev pub nonzero : F → Bool
  nonzero a = not (eq a (num 0))

  abbrev pub truthy : Option F → Bool
  truthy none = false
  truthy (some a) = nonzero a

  -- `a or b` on optional numbers
  abbrev pub or_else : Option F → Option F → Option F
  or_else a b = if truthy a then a else b

  -- `a or 0`
  abbrev pub or_zero : Option F → F
  or_zero none = num 0
  or_zero (some a) = if nonzero a then a else num 0

  -- `x is not None and test(x)`
  abbrev pub known_and : (F → Bool) → Option F → Bool
  known_and test none = false
  known_and test (some a) = test a

module _ (py : Runtime) (laws : RuntimeLaws py) where
  open py use {F, leb}

  pub le_refl : (a : F) → leb a a ≡ true
  le_refl a = elim (laws.le_total a a) [ inl h ↦ h | inr h ↦ h ]

  pub le_of_not : (a b : F) → leb a b ≡ false → leb b a ≡ true
  le_of_not a b h = elim (laws.le_total a b) [ inl k ↦ cc | inr k ↦ k ]
