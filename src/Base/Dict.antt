-- ===== src/Base/Dict.antt =====
-- A Python dict or OrderedDict with text keys: entries in insertion order.
use Prim.Native.Nat.{◌+◌, ◌≤◌}
use Prim.Native.String.{String}
use mathlib.Core.Path.{◌≡◌, refl}
use mathlib.Core.Option.{Option, none, some}
use mathlib.Core.List.{List, [], ◌∷◌, ◌++◌}
use native.Mathlib.Omega.{arith}
use text.Mathlib.Text.{◌==◌}
use text.Mathlib.TextEquality.{eq_iff}
use ipointel.Base.Tests.{if◌then◌else◌}
use ipointel.Base.Lists.{length, length-append}

abbrev pub Dict {ℓ} : Type ℓ → Type ℓ
Dict V = List (String × V)

module _ {ℓ} {V : Type ℓ} where
  abbrev pub lookup : String → Dict V → Option V
  lookup k [] = none
  lookup k ((j, v) ∷ d) = if j == k then some v else lookup k d

  -- `del d[k]`, at every entry of the key.
  abbrev pub erase : String → Dict V → Dict V
  erase k [] = []
  erase k ((j, v) ∷ d) = let rest = erase k d in if j == k then rest else (j, v) ∷ rest

  -- The entry goes to the end: `d[k] = v` at a new key, or `d.move_to_end(k)` and a write.
  abbrev pub put_last : String → V → Dict V → Dict V
  put_last k v d = erase k d ++ (k, v) ∷ []

  pub lookup-erase :
      (k j : String) (d : Dict V) → lookup j (erase k d) ≡ (if k == j then none else lookup j d)
  lookup-erase k j [] = ground arith
  lookup-erase k j ((i, v) ∷ d) =
      ground (arith, lookup-erase k j d, eq_iff i k, eq_iff i j, eq_iff k j)

  pub lookup-append_one :
      (k j : String) (v : V) (d : Dict V)
      → lookup k d ≡ none
      → lookup j (d ++ (k, v) ∷ []) ≡ (if k == j then some v else lookup j d)
  lookup-append_one k j v [] h = refl
  lookup-append_one k j v ((i, w) ∷ d) h =
      ground (arith, lookup-append_one k j v d, eq_iff i k, eq_iff i j, eq_iff k j)

  pub lookup-put_last :
      (k j : String) (v : V) (d : Dict V)
      → lookup j (put_last k v d) ≡ (if k == j then some v else lookup j d)
  lookup-put_last k j v d = ground (
    arith,
    lookup-append_one k j v (erase k d),
    lookup-erase k k d,
    lookup-erase k j d,
    eq_iff k k,
  )

  pub length-erase_le : (k : String) (d : Dict V) → length (erase k d) ≤ length d
  length-erase_le k [] = omega arith
  length-erase_le k ((j, v) ∷ d) = ground (arith, length-erase_le k d)

  pub length-erase_lt :
      (k : String) (v : V) (d : Dict V) → lookup k d ≡ some v → length (erase k d) + 1 ≤ length d
  length-erase_lt k v [] h = cc
  length-erase_lt k v ((j, w) ∷ d) h = ground (arith, length-erase_lt k v d, length-erase_le k d)

  -- A write to a key that was there does not make the dict longer.
  pub length-put_last_known :
      (k : String) (v w : V) (d : Dict V) → lookup k d ≡ some v → length (put_last k w d) ≤ length d
  length-put_last_known k v w d h =
      omega (arith, length-erase_lt k v d h, length-append {ℓ} (erase k d) ((k, w) ∷ []))

  pub length-put_last_le :
      (k : String) (w : V) (d : Dict V) → length (put_last k w d) ≤ length d + 1
  length-put_last_le k w d =
      omega (arith, length-erase_le k d, length-append {ℓ} (erase k d) ((k, w) ∷ []))

-- No key is listed twice.
abbrev pub Unique {ℓ} : {V : Type ℓ} → Dict V → Type ℓ
Unique [] = Unit
Unique ((k, v) ∷ d) = (lookup k d ≡ none) × Unique d

module _ {ℓ} {V : Type ℓ} where
  pub erase-Unique : (k : String) (d : Dict V) → Unique d → Unique (erase k d)
  erase-Unique k [] u = tt
  erase-Unique k ((j, v) ∷ d) u =
      ground (arith, erase-Unique k d u.1, lookup-erase k j d, eq_iff j k, eq_iff k j)

  append_one-Unique :
      (k : String) (v : V) (d : Dict V) → lookup k d ≡ none → Unique d → Unique (d ++ (k, v) ∷ [])
  append_one-Unique k v [] h u = ground arith
  append_one-Unique k v ((j, w) ∷ d) h u =
      ground (arith, append_one-Unique k v d, lookup-append_one k j v d, eq_iff j k, eq_iff k j)

  pub put_last-Unique : (k : String) (v : V) (d : Dict V) → Unique d → Unique (put_last k v d)
  put_last-Unique k v d u = append_one-Unique k v (erase k d) (gone k d) (erase-Unique k d u)
    where
      gone : (k : String) (d : Dict V) → lookup k (erase k d) ≡ none
      gone k d = ground (arith, lookup-erase k k d, eq_iff k k)
