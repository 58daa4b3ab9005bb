-- ===== src/Identity/IssueType.antt =====
-- `classify_issue_type` and `board_for_issue_type` of app/services/identity.py. `lower` stands for
-- `str.lower`; None is the empty text, which is treated alike.
use ipointel.Base.{
  ℕ, ◌≡◌, refl, ◌⊎◌, inl, inr, Bool, true, false, ◌&&◌, ◌||◌, Option, none, some, List, [], ◌∷◌,
  ◌++◌, arith, leb, ◌==◌, Bool-cases, if◌then◌else◌,
}
use ipointel.Base.Text.{Chars, codes, same, begins, contains, replace, join}
use ipointel.Identity.Names.{close_word}

pub data IssueType : Type 0 where
  ipo sme_ipo invit_ipo reit_ipo : IssueType

-- The ASCII white space of `str.split()`.
abbrev pub is_space : ℕ → Bool
is_space c = c == b' ' || (leb 9 c && leb c 13)

-- `s.split()`; `word` is what was read of the current word.
unfoldable pub split : Chars → Chars → List Chars
split word [] = close_word word []
split word (c ∷ s) = elim (is_space c) [
  | true ↦ close_word word (split [] s)
  | false ↦ split (word ++ c ∷ []) s
]

-- `s.endswith(t)`
abbrev pub ends : Chars → Chars → Bool
ends s [] = true
ends [] (d ∷ t) = false
ends (c ∷ s) (d ∷ t) = same (c ∷ s) (d ∷ t) || ends s (d ∷ t)

-- `t == "ipo" or t.endswith(" ipo") or t.startswith("ipo ")`
unfoldable pub is_plain_ipo : Chars → Bool
is_plain_ipo t = same t (codes "ipo") || (ends t (codes " ipo") || begins t (codes "ipo "))

-- `t in ("nse sme", "sme")`
abbrev pub is_bare_sme : Chars → Bool
is_bare_sme t = same t (codes "nse sme") || same t (codes "sme")

-- The ladder of `classify_issue_type`, by what its tests say.
unfoldable pub ladder :
    (empty has_sme has_ipo bare_sme has_invit has_reit plain : Bool) → Option IssueType
ladder empty has_sme has_ipo bare_sme has_invit has_reit plain =
    if empty
    then none
    else if has_sme && has_ipo || bare_sme
    then some sme_ipo
    else if has_invit && has_ipo
    then some invit_ipo
    else if has_reit && has_ipo
    then some reit_ipo
    else if plain
    then some ipo
    else none

-- The tests of `classify_issue_type` on the normalised text.
unfoldable pub classify : Chars → Option IssueType
unfolding ladder is_plain_ipo
classify t =
    ladder (same t [] || same t (codes "none")) (contains (codes "sme") t)
      (contains (codes "ipo") t) (is_bare_sme t) (contains (codes "invit") t)
      (contains (codes "reit") t) (is_plain_ipo t)

-- `" ".join(str(raw_type).lower().replace("-", " ").split())`
unfoldable pub normal_type : (Chars → Chars) → Chars → Chars
unfolding split replace
normal_type lower raw = join (b' ' ∷ []) (split [] (replace (b'-' ∷ []) (b' ' ∷ []) (lower raw)))

-- `classify_issue_type`
unfoldable pub classify_issue_type : (Chars → Chars) → Chars → Option IssueType
unfolding classify normal_type
classify_issue_type lower raw = classify (normal_type lower raw)

pub data Board : Type 0 where
  sme mainboard : Board

abbrev pub is_sme : Option IssueType → Bool
is_sme none = false
is_sme (some sme_ipo) = true
is_sme (some _) = false

-- `board_for_issue_type`
unfoldable pub board_for_issue_type : (Chars → Chars) → Option IssueType → Chars → Board
board_for_issue_type lower kind exchange =
    if is_sme kind
      || (contains (codes "sme") (lower exchange) || contains (codes "emerge") (lower exchange))
    then sme
    else mainboard

begins-contains : (s t : Chars) → begins s t ≡ true → contains t s ≡ true
begins-contains [] t h = h
begins-contains (c ∷ s) t h = ground arith

begins_shorter : (s t u : Chars) → begins s (t ++ u) ≡ true → begins s t ≡ true
begins_shorter s [] u h = refl
begins_shorter [] (d ∷ t) u h = cc
begins_shorter (c ∷ s) (d ∷ t) u h = ground (arith, begins_shorter s t u)

begins-same : (s t : Chars) → same s t ≡ true → begins s t ≡ true
begins-same [] [] h = refl
begins-same [] (d ∷ t) h = cc
begins-same (c ∷ s) [] h = refl
begins-same (c ∷ s) (d ∷ t) h = ground (arith, begins-same s t)

ends-contains : (s : Chars) (d : ℕ) (t : Chars) → ends s (d ∷ t) ≡ true → contains (d ∷ t) s ≡ true
ends-contains [] d t h = cc
ends-contains (c ∷ s) d t h = elim (Bool-cases (same (c ∷ s) (d ∷ t))) [
  | inl whole ↦ begins-contains (c ∷ s) (d ∷ t) (begins-same (c ∷ s) (d ∷ t) whole)
  | inr part ↦ ground (arith, ends-contains s d t)
]

contains_shorter : (s : Chars) (d : ℕ) (t : Chars) → contains (d ∷ t) s ≡ true → contains t s ≡ true
contains_shorter [] d t h = cc
contains_shorter (c ∷ s) d t h = ground (arith, begins-contains s t, contains_shorter s d t)

ladder_needs :
    (empty has_sme has_ipo bare_sme has_invit has_reit plain : Bool) (kind : IssueType)
    → ladder empty has_sme has_ipo bare_sme has_invit has_reit plain ≡ some kind
    → (has_ipo ≡ true) ⊎ (bare_sme ≡ true) ⊎ (plain ≡ true)
unfolding ladder
ladder_needs e a b c d f g kind h = ground arith

plain-contains : (t : Chars) → is_plain_ipo t ≡ true → contains (codes "ipo") t ≡ true
unfolding is_plain_ipo
plain-contains t h = elim (Bool-cases (same t (codes "ipo"))) [
  | inl whole ↦ begins-contains t (codes "ipo") (begins-same t (codes "ipo") whole)
  | inr other ↦ elim (Bool-cases (ends t (codes " ipo"))) [
    | inl last ↦ contains_shorter t b' ' (codes "ipo") (ends-contains t b' ' (codes "ipo") last)
    | inr inner ↦
        begins-contains t (codes "ipo")
          (begins_shorter t (codes "ipo") (codes " ") (rw (other, inner) at h))
  ]
]

-- Only what speaks of an IPO, or is just "sme" or "nse sme" once normalised, is classified at all: a
-- preferential allotment, a rights issue or a QIP is no IPO of any kind.
pub classified_mentions_ipo :
    (lower : Chars → Chars) (raw : Chars) (kind : IssueType)
    → classify_issue_type lower raw ≡ some kind
    → (contains (codes "ipo") (normal_type lower raw) ≡ true)
      ⊎ (is_bare_sme (normal_type lower raw) ≡ true)
unfolding classify_issue_type classify
classified_mentions_ipo lower raw kind h =
    let t = normal_type lower raw in
    elim (ladder_needs _ _ _ _ _ _ _ kind h) [
      | inl named ↦ inl named
      | inr (inl bare) ↦ inr bare
      | inr (inr plain) ↦ inl (plain-contains t plain)
    ]
