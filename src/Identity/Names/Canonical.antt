-- ===== src/Identity/Names/Canonical.antt =====
-- `canonical_name` gives one spelling to an issuer: it is a fixed point of itself, and corporate
-- suffixes make no difference.
use ipointel.Base.{
  ℕ, ◌≡◌, ◌≢◌, refl, sym, ap, subst, ◌∙◌, inl, inr, true, false, ◌||◌, List, [], ◌∷◌, ◌++◌, arith,
  ◌==◌, All, All-append, Bool-cases,
}
use ipointel.Base.Text.{Chars, codes, replace, join}
use ipointel.Identity.Names.{
  is_suffix, strip_parens, is_alnum, close_word, tokens, put_back, pop_suffixes, or_all,
  name_tokens, canonical_name,
}

-- A token: not empty, of small letters and digits.
abbrev pub IsWord : Chars → Type 0
IsWord w = (w ≢ []) × All (λ c. is_alnum c ≡ true) w

-- The alphabet of a canonical name.
abbrev pub IsPlain : Chars → Type 0
IsPlain = All (λ c. (is_alnum c || c == b' ') ≡ true)

tokens_letter :
    (word : Chars) (c : ℕ) (s : Chars)
    → is_alnum c ≡ true
    → tokens word (c ∷ s) ≡ tokens (word ++ c ∷ []) s
unfolding tokens
tokens_letter word c s h = rw (h, tokens)

tokens_gap :
    (word : Chars) (c : ℕ) (s : Chars)
    → is_alnum c ≡ false
    → tokens word (c ∷ s) ≡ close_word word (tokens [] s)
unfolding tokens
tokens_gap word c s h = rw (h, tokens)

tokens-IsWord : (word s : Chars) → All (λ c. is_alnum c ≡ true) word → All IsWord (tokens word s)
tokens-IsWord [] [] h = unfold tokens in tt
tokens-IsWord (c ∷ w) [] h = unfold tokens in ((λ e. cc, h), tt)
tokens-IsWord word (c ∷ s) h = elim (Bool-cases (is_alnum c)) [
  | inl letter ↦
      rw (tokens_letter word c s letter)
        (tokens-IsWord (word ++ c ∷ []) s (All-append _ word (c ∷ []) h (letter, tt)))
  | inr gap ↦ rw (tokens_gap word c s gap) (closed word (tokens [] s) h (tokens-IsWord [] s tt))
]
  where
    closed :
        (w : Chars) (ws : List Chars)
        → All (λ c. is_alnum c ≡ true) w
        → All IsWord ws
        → All IsWord (close_word w ws)
    closed [] ws a b = b
    closed (d ∷ w) ws a b = ((λ e. cc, a), b)

append-nil' : (w : Chars) → w ++ [] ≡ w
append-nil' [] = refl
append-nil' (c ∷ w) = ap (λ r. c ∷ r) (append-nil' w)

append-append : (w v u : Chars) → (w ++ v) ++ u ≡ w ++ (v ++ u)
append-append [] v u = refl
append-append (c ∷ w) v u = ap (λ r. c ∷ r) (append-append w v u)

-- A run of letters goes to the current token.
tokens-letters :
    (word w s : Chars)
    → All (λ c. is_alnum c ≡ true) w
    → tokens word (w ++ s) ≡ tokens (word ++ w) s
tokens-letters word [] s h = ap (λ r. tokens r s) (sym (append-nil' word))
tokens-letters word (c ∷ w) s h =
    tokens_letter word c (w ++ s) h.0
    ∙ (tokens-letters (word ++ c ∷ []) w s h.1
        ∙ ap (λ r. tokens r s) (append-append word (c ∷ []) w))

tokens_word : (w : Chars) → IsWord w → tokens [] w ≡ w ∷ []
unfolding tokens
tokens_word w h = ap (tokens []) (sym (append-nil' w)) ∙ (tokens-letters [] w [] h.1 ∙ closed w h.0)
  where
    closed : (v : Chars) → v ≢ [] → close_word v [] ≡ v ∷ []
    closed [] n = absurd (n refl)
    closed (c ∷ v) n = refl

-- A space between two texts ends a token.
tokens-space : (word s t : Chars) → tokens word (s ++ b' ' ∷ t) ≡ tokens word s ++ tokens [] t
tokens-space [] [] t = unfold tokens in refl
tokens-space (c ∷ w) [] t = unfold tokens in refl
tokens-space word (c ∷ s) t = elim (Bool-cases (is_alnum c)) [
  | inl letter ↦
      rw (tokens_letter word c (s ++ b' ' ∷ t) letter, tokens_letter word c s letter)
        (tokens-space (word ++ c ∷ []) s t)
  | inr gap ↦
      rw (tokens_gap word c (s ++ b' ' ∷ t) gap, tokens_gap word c s gap)
        (closed word (tokens-space [] s t))
]
  where
    closed :
        (w : Chars)
        → tokens [] (s ++ b' ' ∷ t) ≡ tokens [] s ++ tokens [] t
        → close_word w (tokens [] (s ++ b' ' ∷ t)) ≡ close_word w (tokens [] s) ++ tokens [] t
    closed [] e = e
    closed (d ∷ w) e = ap (λ r. (d ∷ w) ∷ r) e

tokens-join : (ts : List Chars) → All IsWord ts → tokens [] (join (b' ' ∷ []) ts) ≡ ts
tokens-join [] h = unfold tokens in refl
tokens-join (w ∷ []) h = tokens_word w h.0
tokens-join (w ∷ v ∷ ws) h =
    tokens-space [] w (join (b' ' ∷ []) (v ∷ ws))
    ∙ (ap (λ r. r ++ tokens [] (join (b' ' ∷ []) (v ∷ ws))) (tokens_word w h.0)
        ∙ ap (λ r. w ∷ r) (tokens-join (v ∷ ws) h.1))

-- What is left after the suffixes are gone has no suffix at its end.
pop-put_back :
    (t : Chars) (us : List Chars)
    → pop_suffixes us ≡ us
    → pop_suffixes (put_back t us) ≡ put_back t us
unfolding pop_suffixes
pop-put_back t [] h = elim (Bool-cases (is_suffix t)) [
  | inl suffix ↦ rw suffix
  | inr other ↦ rw other (rw other)
]
pop-put_back t (u ∷ us) h = ap (put_back t) h

pop-pop : (ts : List Chars) → pop_suffixes (pop_suffixes ts) ≡ pop_suffixes ts
unfolding pop_suffixes
pop-pop [] = refl
pop-pop (t ∷ ts) = pop-put_back t (pop_suffixes ts) (pop-pop ts)

pop-append_suffix :
    (ts : List Chars) (t : Chars)
    → is_suffix t ≡ true
    → pop_suffixes (ts ++ t ∷ []) ≡ pop_suffixes ts
unfolding pop_suffixes
pop-append_suffix [] t h = rw h
pop-append_suffix (u ∷ ts) t h = ap (put_back u) (pop-append_suffix ts t h)

All-pop : (ts : List Chars) → All IsWord ts → All IsWord (pop_suffixes ts)
unfolding pop_suffixes
All-pop [] h = tt
All-pop (t ∷ ts) h = back (pop_suffixes ts) (All-pop ts h.1)
  where
    back : (us : List Chars) → All IsWord us → All IsWord (put_back t us)
    back [] a = elim (Bool-cases (is_suffix t)) [
      | inl suffix ↦ rw suffix tt
      | inr other ↦ rw other (h.0, tt)
    ]
    back (u ∷ us) a = (h.0, a)

name_tokens-IsWord : (s : Chars) → All IsWord (name_tokens s)
unfolding name_tokens
name_tokens-IsWord s = pick (pop_suffixes (tokens [] s)) (All-pop (tokens [] s) words)
  where
    words : All IsWord (tokens [] s)
    words = tokens-IsWord [] s tt

    pick : (us : List Chars) → All IsWord us → All IsWord (or_all us (tokens [] s))
    pick [] a = words
    pick (u ∷ us) a = a

-- Taking the suffixes off a list of name tokens again changes nothing.
name_tokens_again : (s r : Chars) → tokens [] r ≡ name_tokens s → name_tokens r ≡ name_tokens s
unfolding name_tokens
name_tokens_again s r e = rw e (settled (tokens [] s) (pop_suffixes (tokens [] s)) refl)
  where
    settled :
        (all us : List Chars)
        → pop_suffixes all ≡ us
        → or_all (pop_suffixes (or_all us all)) (or_all us all) ≡ or_all us all
    settled all [] p = rw p
    settled all (u ∷ us) p =
        let again : pop_suffixes (u ∷ us) ≡ u ∷ us =
          subst (λ x. pop_suffixes x ≡ x) p (pop-pop all) in
        rw again

word-IsPlain : (w : Chars) → All (λ c. is_alnum c ≡ true) w → IsPlain w
word-IsPlain [] h = tt
word-IsPlain (c ∷ w) h = (ground arith, word-IsPlain w h.1)

join-IsPlain : (ts : List Chars) → All IsWord ts → IsPlain (join (b' ' ∷ []) ts)
join-IsPlain [] h = tt
join-IsPlain (w ∷ []) h = word-IsPlain w h.0.1
join-IsPlain (w ∷ v ∷ ws) h =
    All-append _ w _ (word-IsPlain w h.0.1) (refl, join-IsPlain (v ∷ ws) h.1)

-- A plain text has no parentheses and no ampersand.
strip_parens-plain : (s : Chars) → IsPlain s → strip_parens false s ≡ s
unfolding strip_parens
strip_parens-plain [] h = refl
strip_parens-plain (c ∷ s) h = ground (arith, strip_parens-plain s h.1)

replace-plain : (new s : Chars) → IsPlain s → replace (b'&' ∷ []) new s ≡ s
unfolding replace
replace-plain new [] h = refl
replace-plain new (c ∷ s) h = ground (arith, replace-plain new s h.1)

module _ (normalize : Chars → Chars) (fixes : (s : Chars) → IsPlain s → normalize s ≡ s) where
  -- At a plain text only the tokens matter.
  canonical_plain :
      (s : Chars) → IsPlain s → canonical_name normalize s ≡ join (b' ' ∷ []) (name_tokens s)
  unfolding canonical_name
  canonical_plain [] h = refl
  canonical_plain (c ∷ s) h =
      ap
        (λ r.
          join (b' ' ∷ [])
            (name_tokens (replace (b'&' ∷ []) (codes " and ") (strip_parens false r))))
        (fixes (c ∷ s) h)
      ∙ (ap (λ r. join (b' ' ∷ []) (name_tokens (replace (b'&' ∷ []) (codes " and ") r)))
            (strip_parens-plain (c ∷ s) h)
          ∙ ap (λ r. join (b' ' ∷ []) (name_tokens r)) (replace-plain (codes " and ") (c ∷ s) h))

  rejoin :
      (s : Chars)
      → canonical_name normalize (join (b' ' ∷ []) (name_tokens s))
        ≡ join (b' ' ∷ []) (name_tokens s)
  rejoin s =
      canonical_plain _ (join-IsPlain (name_tokens s) (name_tokens-IsWord s))
      ∙ ap (join (b' ' ∷ []))
          (name_tokens_again s _ (tokens-join (name_tokens s) (name_tokens-IsWord s)))

  -- Where Unicode normalisation and lower-casing leave small letters, digits and spaces alone, a
  -- canonical name is its own canonical name.
  pub canonical_name_idempotent :
      (name : Chars)
      → canonical_name normalize (canonical_name normalize name) ≡ canonical_name normalize name
  canonical_name_idempotent [] = unfold canonical_name in refl
  canonical_name_idempotent (c ∷ name) =
      unfold canonical_name in
      rejoin (replace (b'&' ∷ []) (codes " and ") (strip_parens false (normalize (c ∷ name))))

  -- Under the same condition a corporate suffix at the end of a plain name makes no difference, if
  -- the name has a token that is no suffix.
  pub canonical_name_suffix :
      (name suffix : Chars)
      → IsPlain name
      → IsWord suffix
      → is_suffix suffix ≡ true
      → pop_suffixes (tokens [] name) ≢ []
      → canonical_name normalize (name ++ b' ' ∷ suffix) ≡ canonical_name normalize name
  canonical_name_suffix name suffix plain word corporate proper =
      canonical_plain _ (All-append _ name _ plain (refl, word-IsPlain suffix word.1))
      ∙ (ap (join (b' ' ∷ [])) dropped ∙ sym (canonical_plain name plain))
    where
      same_tokens : tokens [] (name ++ b' ' ∷ suffix) ≡ tokens [] name ++ suffix ∷ []
      same_tokens =
          tokens-space [] name suffix ∙ ap (λ r. tokens [] name ++ r) (tokens_word suffix word)

      pick : (us all all' : List Chars) → us ≢ [] → or_all us all ≡ or_all us all'
      pick [] all all' n = absurd (n refl)
      pick (u ∷ us) all all' n = refl

      dropped : name_tokens (name ++ b' ' ∷ suffix) ≡ name_tokens name
      dropped =
          unfold name_tokens in
          rw same_tokens (
            rw (pop-append_suffix (tokens [] name) suffix corporate)
              (pick (pop_suffixes (tokens [] name)) _ _ proper))
