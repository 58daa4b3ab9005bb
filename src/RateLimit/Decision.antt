-- ===== src/RateLimit/Decision.antt =====
-- What `hit` decides, and what it remembers of each key.
use ipointel.Base.{
  ℕ, ◌+◌, ◌%◌, ◌≤◌, max, String, ◌≡◌, refl, sym, ap, ◌∙◌, inl, inr, true, List, [], ◌∷◌, ◌++◌,
  arith, leb, ◌==◌, length, if◌then◌else◌, Bool-cases, eq_iff,
}
use text.Mathlib.Text.{◌==◌ as str_eq}
use ipointel.Base.Dict.{Dict, put_last, lookup-put_last}
use ipointel.RateLimit.{Limiter, sweep, prune, prepare, decide, hit, bucket_of}
use ipointel.RateLimit.Fresh.{fresh, prune-eq-fresh}
use ipointel.RateLimit.Sweep.{Sorted-later, bucket-Ascends, fresh-without_stale}
use ipointel.RateLimit.Bounds.{IsValid, prepare-IsValid}

-- The hits of a key that a window ending now still counts.
abbrev pub counted : String → ℕ → ℕ → Limiter → List ℕ
counted key window now s = fresh window now (bucket_of key s.buckets)

-- The amortised sweep changes no count.
pub counted-prepare :
    (key : String) (window before now : ℕ) (s : Limiter)
    → before ≤ now
    → IsValid before s
    → counted key window now (prepare window now s) ≡ counted key window now s
unfolding prepare sweep
counted-prepare key window before now s h v = elim (Bool-cases ((s.ops + 1) % s.sweep_every == 0)) [
  | inl due ↦ rw due (
      fresh-without_stale (max s.widest_window window) now window key s.buckets (omega arith)
        v.unique (Sorted-later before now s.buckets h v.sorted))
  | inr skipped ↦ rw skipped
]

pub decide_lem :
    (key : String) (limit window now : ℕ) (s : Limiter)
    → IsValid now s
    → (decide key limit window now s).1 ≡ leb limit (length (counted key window now s))
unfolding decide
decide_lem key limit window now s v =
    elim (Bool-cases (leb limit (length (prune window now (bucket_of key s.buckets))))) [
      | inl rejected ↦ rw rejected (sym (rw same at rejected))
      | inr accepted ↦ rw accepted (sym (rw same at accepted))
    ]
  where
    same : prune window now (bucket_of key s.buckets) ≡ counted key window now s
    same =
        prune-eq-fresh 0 now window (bucket_of key s.buckets)
          (bucket-Ascends now key s.buckets v.sorted)

-- From a valid limiter, an attempt at a later time is rejected exactly when the hits of its key
-- inside the window, counted with no sweep in between, have reached the limit.
pub hit_decision :
    (key : String) (limit window before now : ℕ) (s : Limiter)
    → before ≤ now
    → IsValid before s
    → (hit key limit window now s).1 ≡ leb limit (length (counted key window now s))
unfolding hit
hit_decision key limit window before now s h v =
    rw (← counted-prepare key window before now s h v) (
      decide_lem key limit window now (prepare window now s)
        (prepare-IsValid window before now s h v))

module _ (window now : ℕ) where
  pub fresh-fresh : (b : List ℕ) → fresh window now (fresh window now b) ≡ fresh window now b
  fresh-fresh [] = refl
  fresh-fresh (t ∷ b) = elim (Bool-cases (leb (t + window) now)) [
    | inl old ↦ rw old (fresh-fresh b)
    | inr new ↦ rw new (rw new (ap (λ r. t ∷ r) (fresh-fresh b)))
  ]

  pub fresh-append_now :
      (b : List ℕ) → 1 ≤ window → fresh window now (b ++ now ∷ []) ≡ fresh window now b ++ now ∷ []
  fresh-append_now [] h = ground arith
  fresh-append_now (t ∷ b) h = ground (arith, fresh-append_now b h)

  fresh-put_last :
      (key other : String) (b : List ℕ) (d : Dict (List ℕ))
      → fresh window now (bucket_of other (put_last key b d))
        ≡ (if str_eq key other then fresh window now b else fresh window now (bucket_of other d))
  fresh-put_last key other b d = ground (arith, lookup-put_last key other b d)

-- A rejected attempt changes no count: not that of its own key, whose window it cannot push
-- forward, and not that of another.
decide_rejected :
    (key other : String) (limit window now : ℕ) (s : Limiter)
    → IsValid now s
    → (decide key limit window now s).1 ≡ true
    → counted other window now (decide key limit window now s).0 ≡ counted other window now s
unfolding decide
decide_rejected key other limit window now s v =
    elim (Bool-cases (leb limit (length (prune window now (bucket_of key s.buckets))))) [
      | inl rejected ↦ rw rejected (λ _. ground (
        arith,
        fresh-put_last window now key other (prune window now (bucket_of key s.buckets)) s.buckets,
        same,
        fresh-fresh window now (bucket_of key s.buckets),
        eq_iff key other,
      ))
      | inr accepted ↦ rw accepted (λ e. cc)
    ]
  where
    same : prune window now (bucket_of key s.buckets) ≡ counted key window now s
    same =
        prune-eq-fresh 0 now window (bucket_of key s.buckets)
          (bucket-Ascends now key s.buckets v.sorted)

-- From a valid limiter, an attempt that is rejected leaves the count of every key, its own
-- included, as it was: a client at its limit cannot extend its own lockout.
pub hit_rejected :
    (key other : String) (limit window before now : ℕ) (s : Limiter)
    → before ≤ now
    → IsValid before s
    → (hit key limit window now s).1 ≡ true
    → counted other window now (hit key limit window now s).0 ≡ counted other window now s
unfolding hit
hit_rejected key other limit window before now s h v r =
    decide_rejected key other limit window now (prepare window now s)
      (prepare-IsValid window before now s h v) r
    ∙ counted-prepare other window before now s h v
