-- ===== src/Identity/Names.antt =====
-- `canonical_name` of app/services/identity.py. `normalize` stands for `unicodedata.normalize("NFKC")`
-- followed by `str.lower`, which are Python's own.
pub mod Canonical
use ipointel.Base.{
  ℕ, ◌≡◌, ◌≢◌, refl, inl, inr, Bool, true, false, ◌&&◌, ◌||◌, List, [], ◌∷◌, ◌++◌, arith, leb, ◌==◌,
  any, Bool-cases, if◌then◌else◌,
}
use ipointel.Base.Text.{Chars, codes, same, contains, replace, join}

-- `_CORPORATE_SUFFIXES`
abbrev pub corporate_suffixes : List Chars
corporate_suffixes =
    codes "limited"
    ∷ codes "ltd"
    ∷ codes "private"
    ∷ codes "pvt"
    ∷ codes "inc"
    ∷ codes "incorporated"
    ∷ codes "corporation"
    ∷ codes "corp"
    ∷ codes "co"
    ∷ codes "company"
    ∷ codes "llc"
    ∷ codes "plc"
    ∷ codes "llp"
    ∷ codes "lp"
    ∷ codes "sa"
    ∷ codes "nv"
    ∷ codes "ag"
    ∷ codes "se"
    ∷ codes "the"
    ∷ []

unfoldable pub is_suffix : Chars → Bool
is_suffix t = any (same t) corporate_suffixes

-- `_PAREN.sub(" ", s)`: each "(…)" up to its first ")" becomes a space; a "(" that is never closed
-- stays. `inside` says that the text stands in a match.
unfoldable pub strip_parens : Bool → Chars → Chars
strip_parens inside [] = []
strip_parens true (c ∷ s) = elim (c == b')') [
  | true ↦ strip_parens false s
  | false ↦ strip_parens true s
]
strip_parens false (c ∷ s) = elim (c == b'(' && contains (b')' ∷ []) s) [
  | true ↦ b' ' ∷ strip_parens true s
  | false ↦ c ∷ strip_parens false s
]

abbrev pub is_alnum : ℕ → Bool
is_alnum c = (leb b'a' c && leb c b'z') || (leb b'0' c && leb c b'9')

-- The word is put before the words that follow, if it has letters.
abbrev pub close_word : Chars → List Chars → List Chars
close_word [] ws = ws
close_word (c ∷ w) ws = (c ∷ w) ∷ ws

-- `[t for t in _NON_ALNUM.split(s) if t]`; `word` is what was read of the current token.
unfoldable pub tokens : Chars → Chars → List Chars
tokens word [] = close_word word []
tokens word (c ∷ s) = elim (is_alnum c) [
  | true ↦ tokens (word ++ c ∷ []) s
  | false ↦ close_word word (tokens [] s)
]

abbrev pub put_back : Chars → List Chars → List Chars
put_back t [] = if is_suffix t then [] else t ∷ []
put_back t (u ∷ us) = t ∷ u ∷ us

-- `while tokens and tokens[-1] in _CORPORATE_SUFFIXES: tokens.pop()`
unfoldable pub pop_suffixes : List Chars → List Chars
unfolding is_suffix
pop_suffixes [] = []
pop_suffixes (t ∷ ts) = put_back t (pop_suffixes ts)

-- A name of suffixes alone keeps its tokens.
abbrev pub or_all : List Chars → List Chars → List Chars
or_all [] all = all
or_all (t ∷ ts) all = t ∷ ts

unfoldable pub name_tokens : Chars → List Chars
unfolding pop_suffixes tokens
name_tokens s = or_all (pop_suffixes (tokens [] s)) (tokens [] s)

-- `canonical_name`; None is the empty name.
unfoldable pub canonical_name : (Chars → Chars) → Chars → Chars
unfolding name_tokens strip_parens replace
canonical_name normalize [] = []
canonical_name normalize (c ∷ name) =
    join (b' ' ∷ []) (
      name_tokens (replace (b'&' ∷ []) (codes " and ") (strip_parens false (normalize (c ∷ name)))))
