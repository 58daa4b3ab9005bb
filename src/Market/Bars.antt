-- ===== src/Market/Bars.antt =====
-- What the two searches through the price bars return.
use ipointel.Base.{
  ℕ, ◌≤◌, ◌<◌, ◌≡◌, refl, ◌⊎◌, inl, inr, some, List, [], ◌∷◌, arith, leb, some_injective, sym, ◌∙◌,
  subst, Bool-cases, leb→le, le→leb,
}
use ipointel.Market.{Bar, nearest_from, bar_nearest_before_or_on}

-- The bar is one of the list.
abbrev pub IsOneOf : {F : Type 0} → Bar F → List (Bar F) → Type 0
IsOneOf b [] = ⊥
IsOneOf b (c ∷ bars) = (b ≡ c) ⊎ IsOneOf b bars

-- No bar lies before one that stands earlier in the list.
abbrev pub IsChronological : {F : Type 0} → ℕ → List (Bar F) → Type 0
IsChronological t [] = Unit
IsChronological t (b ∷ bars) = (t ≤ b.ts) × IsChronological b.ts bars

-- A bar of the list that passes is at most at `ts`.
abbrev pub NoneBetween : {F : Type 0} → ℕ → ℕ → List (Bar F) → Type 0
NoneBetween ts target [] = Unit
NoneBetween ts target (b ∷ bars) = ((b.ts ≤ target → b.ts ≤ ts)) × NoneBetween ts target bars

module _ {F : Type 0} where
  nearest_sound :
      (best : Bar F) (bars : List (Bar F)) (target : ℕ)
      → best.ts ≤ target
      → (b : Bar F) × (nearest_from (some best) bars target ≡ some b)
        × (b.ts ≤ target)
        × ((b ≡ best) ⊎ IsOneOf b bars)
  unfolding nearest_from
  nearest_sound best [] target h = (best, refl, h, inl refl)
  nearest_sound best (c ∷ bars) target h = elim (Bool-cases (leb c.ts target)) [
    | inl e ↦
        let (b, e', k, o) = nearest_sound c bars target (leb→le c.ts target e) in
        rw e (b, e', k, inr o)
    | inr e ↦ rw e (best, refl, h, inl refl)
  ]

  later-NoneBetween :
      (t target : ℕ) (bars : List (Bar F))
      → target < t
      → IsChronological t bars
      → (ts : ℕ) → NoneBetween ts target bars
  later-NoneBetween t target [] h o ts = tt
  later-NoneBetween t target (b ∷ bars) h o ts = (
    (λ k. omega (arith, h, o.0, k)),
    later-NoneBetween b.ts target bars (omega (arith, h, o.0)) o.1 ts,
  )

  nearest-latest :
      (best : Bar F) (bars : List (Bar F)) (target : ℕ)
      → best.ts ≤ target
      → IsChronological best.ts bars
      → (b : Bar F) → nearest_from (some best) bars target ≡ some b
      → (best.ts ≤ b.ts) × NoneBetween b.ts target bars
  unfolding nearest_from
  nearest-latest best [] target h o b = λ e. (rw (some_injective best b e) (omega arith), tt)
  nearest-latest best (c ∷ bars) target h o b = elim (Bool-cases (leb c.ts target)) [
    | inl k ↦ rw k (λ e.
        let (l, n) = nearest-latest c bars target (leb→le c.ts target k) o.1 b e in
        (omega (arith, l, o.0), ((λ i. l), n)))
    | inr k ↦ rw k (λ e. (
      rw (some_injective best b e) (omega arith),
      (
        (λ i. ground (arith, le→leb c.ts target i)),
        later-NoneBetween c.ts target bars (ground (arith, le→leb c.ts target)) o.1 b.ts,
      ),
    ))
  ]

  -- On bars in order of time, `bar_nearest_before_or_on` finds a bar of the list at the target or
  -- before, and no other bar up to the target is later.
  pub nearest_latest :
      (bars : List (Bar F)) (target : ℕ) (b : Bar F)
      → IsChronological 0 bars
      → bar_nearest_before_or_on bars target ≡ some b
      → IsOneOf b bars × (b.ts ≤ target) × NoneBetween b.ts target bars
  unfolding bar_nearest_before_or_on nearest_from
  nearest_latest [] target b o = λ e. ground arith
  nearest_latest (c ∷ bars) target b o = elim (Bool-cases (leb c.ts target)) [
    | inl k ↦ rw k (λ e.
        let (b', e', h, i) = nearest_sound c bars target (leb→le c.ts target k) in
        let same = some_injective b' b (sym e' ∙ e) in
        let (l, n) = nearest-latest c bars target (leb→le c.ts target k) o.1 b e in
        (
          subst (λ x. IsOneOf x (c ∷ bars)) same i,
          subst (λ x. x.ts ≤ target) same h,
          ((λ j. l), n),
        ))
    | inr k ↦ rw k (λ e. ground arith)
  ]
