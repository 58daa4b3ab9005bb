-- ===== src/Dcf/Tests.antt =====
-- The bisection towards 1 over the identity.
use ipointel.Base.{ℕ, refl, Option, some}
use ipointel.Base.Int.{ℤ, pos}
use ipointel.Runtime.Fixed.{fixed}
use ipointel.Dcf.{bisect}
use ipointel.Dcf.Bisection.{IsBracket, bisect-IsBracket}

abbrev power : ℤ → ℕ → ℤ
power x n = x

abbrev value : ℤ → Option ℤ
value x = some x

bisect-IsBracket_example :
    IsBracket fixed power value
      (pos 1_000_000)
      (bisect fixed power value (pos 1_000_000) 60 (some (pos 0, pos 3_000_000)))
bisect-IsBracket_example =
    bisect-IsBracket fixed power value (pos 1_000_000) 60 (some (pos 0, pos 3_000_000))
      ((pos 0, refl, refl), (pos 3_000_000, refl, refl))
