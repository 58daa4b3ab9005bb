-- ===== src/Pipeline/Flags.antt =====
-- `_set_flag`: a second pass changes nothing, and the flags of other prefixes stay.
use ipointel.Base.{
  String, ◌≡◌, refl, sym, ◌∙◌, ap, inl, inr, true, false, Option, none, some, List, [], ◌∷◌, ◌++◌,
  arith, is_empty, eq_iff, Bool-cases,
}
use ipointel.Pipeline.{starts_with, without_prefix, same_list, append_if, set_flag}

same_list_refl : (fs : List String) → same_list fs fs ≡ true
unfolding same_list
same_list_refl [] = refl
same_list_refl (f ∷ fs) = ground (arith, eq_iff f f, same_list_refl fs)

same_list-eq : (fs gs : List String) → same_list fs gs ≡ true → fs ≡ gs
unfolding same_list
same_list-eq [] [] h = refl
same_list-eq [] (g ∷ gs) h = ground arith
same_list-eq (f ∷ fs) [] h = ground arith
same_list-eq (f ∷ fs) (g ∷ gs) h = grind (arith, eq_iff f g, same_list-eq fs gs)

without_prefix-append_one :
    (prefix flag : String) (fs : List String)
    → starts_with prefix flag ≡ true
    → without_prefix prefix (fs ++ flag ∷ []) ≡ without_prefix prefix fs
unfolding without_prefix
without_prefix-append_one prefix flag [] h = rw h refl
without_prefix-append_one prefix flag (f ∷ fs) h = elim (Bool-cases (starts_with prefix f)) [
  | inl e ↦ rw e (without_prefix-append_one prefix flag fs h)
  | inr e ↦ rw e (ap (λ gs. f ∷ gs) (without_prefix-append_one prefix flag fs h))
]

without_prefix-twice :
    (prefix : String) (fs : List String)
    → without_prefix prefix (without_prefix prefix fs) ≡ without_prefix prefix fs
unfolding without_prefix
without_prefix-twice prefix [] = refl
without_prefix-twice prefix (f ∷ fs) = elim (Bool-cases (starts_with prefix f)) [
  | inl e ↦ rw e (without_prefix-twice prefix fs)
  | inr e ↦ rw (e, e) (ap (λ gs. f ∷ gs) (without_prefix-twice prefix fs))
]

-- The flag is none, or starts with the prefix.
abbrev pub IsOf : String → Option String → Type 0
IsOf prefix none = Unit
IsOf prefix (some flag) = starts_with prefix flag ≡ true

-- The flags that `_set_flag` leaves, whether it writes them or finds them there.
pub set_flag_list :
    (prefix : String) (flag : Option String) (fs : List String)
    → (set_flag prefix flag fs).0 ≡ append_if flag (without_prefix prefix fs)
unfolding set_flag
set_flag_list prefix flag fs =
    elim (Bool-cases (same_list (append_if flag (without_prefix prefix fs)) fs)) [
      | inl e ↦ rw e (sym (same_list-eq (append_if flag (without_prefix prefix fs)) fs e))
      | inr e ↦ rw e refl
    ]

append_if-without :
    (prefix : String) (flag : Option String) (fs : List String)
    → IsOf prefix flag
    → without_prefix prefix (append_if flag fs) ≡ without_prefix prefix fs
append_if-without prefix none fs h = refl
append_if-without prefix (some flag) fs h = elim (Bool-cases (is_empty flag)) [
  | inl e ↦ rw e refl
  | inr e ↦ rw e (without_prefix-append_one prefix flag fs h)
]

set_flag_same :
    (prefix : String) (flag : Option String) (fs : List String)
    → append_if flag (without_prefix prefix fs) ≡ fs
    → set_flag prefix flag fs ≡ (fs, false)
unfolding set_flag
set_flag_same prefix flag fs h = rw h (rw (same_list_refl fs) refl)

-- Setting a flag of a prefix a second time changes nothing and says so, and after the first time the
-- flags that do not start with the prefix are those from before, in order.
pub set_flag_twice :
    (prefix : String) (flag : Option String) (fs : List String)
    → IsOf prefix flag
    → let fs' = (set_flag prefix flag fs).0 in
      (set_flag prefix flag fs' ≡ (fs', false))
      × (without_prefix prefix fs' ≡ without_prefix prefix fs)
set_flag_twice prefix flag fs h = (set_flag_same prefix flag _ again, kept)
  where
    kept : without_prefix prefix (set_flag prefix flag fs).0 ≡ without_prefix prefix fs
    kept = rw (set_flag_list prefix flag fs) (
        append_if-without prefix flag (without_prefix prefix fs) h ∙ without_prefix-twice prefix fs)

    again :
        append_if flag (without_prefix prefix (set_flag prefix flag fs).0)
        ≡ (set_flag prefix flag fs).0
    again = ap (append_if flag) kept ∙ sym (set_flag_list prefix flag fs)
