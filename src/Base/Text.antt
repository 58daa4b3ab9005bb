-- ===== src/Base/Text.antt =====
-- String methods that the source calls.
use Prim.Native.Nat.{ℕ, zero, suc, ◌-◌}
use Prim.Native.Char.{code}
use Prim.Native.String.{String}
use mathlib.Core.Path.{◌≡◌, refl}
use mathlib.Core.Logic.{◌↔◌, inl, inr}
use mathlib.Core.Bool.{Bool, true, false, ◌&&◌, ◌||◌}
use mathlib.Core.List.{List, [], ◌∷◌, ◌++◌}
use native.Mathlib.Omega.{arith}
use text.Mathlib.Text.{◌==◌}
use ipointel.Base.Tests.{if◌then◌else◌, Bool-cases, ◌==◌ as ◌=ℕ◌}
use ipointel.Base.Lists.{length}

-- `s.endswith(suffix)`
abbrev pub ends_with : String → String → Bool
ends_with suffix String.[] = suffix == String.[]
ends_with suffix (String.◌∷◌ c s) =
    let rest = ends_with suffix s in if suffix == String.◌∷◌ c s then true else rest

-- `s[:n]`, by code points
abbrev pub clip : ℕ → String → String
clip zero s = String.[]
clip (suc n) String.[] = String.[]
clip (suc n) (String.◌∷◌ c s) = String.◌∷◌ c (clip n s)

-- Texts as lists of code points, for code that walks or rewrites them.
abbrev pub Chars : Type 0
Chars = List ℕ

abbrev pub codes : String → Chars
codes String.[] = []
codes (String.◌∷◌ c s) = code c ∷ codes s

-- `s == t`
abbrev pub same : Chars → Chars → Bool
same [] [] = true
same (c ∷ s) (d ∷ t) = c =ℕ d && same s t
same _ _ = false

-- `s.startswith(t)`
abbrev pub begins : Chars → Chars → Bool
begins s [] = true
begins [] (d ∷ t) = false
begins (c ∷ s) (d ∷ t) = c =ℕ d && begins s t

-- `t in s`
abbrev pub contains : Chars → Chars → Bool
contains t [] = begins [] t
contains t (c ∷ s) = begins (c ∷ s) t || contains t s

-- `s.replace(old, new)` from left to right, for an `old` that is not empty: `skip` counts the
-- characters of the last match that are still to be passed over.
unfoldable pub replace_from : ℕ → Chars → Chars → Chars → Chars
replace_from skip old new [] = []
replace_from (suc skip) old new (c ∷ s) = replace_from skip old new s
replace_from zero old new (c ∷ s) = elim (begins (c ∷ s) old) [
  | true ↦ new ++ replace_from (length old - 1) old new s
  | false ↦ c ∷ replace_from zero old new s
]

unfoldable pub replace : Chars → Chars → Chars → Chars
unfolding replace_from
replace old new s = replace_from zero old new s

-- `sep.join(words)`
abbrev pub join : Chars → List Chars → Chars
join sep [] = []
join sep (w ∷ []) = w
join sep (w ∷ v ∷ ws) = w ++ (sep ++ join sep (v ∷ ws))

pub same_iff : (s t : Chars) → (same s t ≡ true) ↔ (s ≡ t)
same_iff [] [] = (λ h. refl, λ h. refl)
same_iff [] (d ∷ t) = (λ h. cc, λ h. cc)
same_iff (c ∷ s) [] = (λ h. cc, λ h. cc)
same_iff (c ∷ s) (d ∷ t) = (λ h. ground (arith, same_iff s t), λ h. ground (arith, same_iff s t))

contains-append_one :
    (d : ℕ) (s t : Chars)
    → contains (d ∷ []) s ≡ false
    → contains (d ∷ []) t ≡ false
    → contains (d ∷ []) (s ++ t) ≡ false
contains-append_one d [] t h k = k
contains-append_one d (c ∷ s) t h k = ground (arith, contains-append_one d s t)

-- No character that is replaced by a text without it is left.
pub contains-replace_one :
    (d : ℕ) (new s : Chars)
    → contains (d ∷ []) new ≡ false
    → contains (d ∷ []) (replace (d ∷ []) new s) ≡ false
unfolding replace
contains-replace_one d new [] h = refl
contains-replace_one d new (c ∷ s) h = elim (Bool-cases (c =ℕ d)) [
  | inl this ↦
      ground (
        arith,
        contains-append_one d new (replace (d ∷ []) new s) h,
        contains-replace_one d new s h,
      )
  | inr other ↦ ground (arith, contains-replace_one d new s h)
]
