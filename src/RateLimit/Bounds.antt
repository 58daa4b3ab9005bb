-- ===== src/RateLimit/Bounds.antt =====
-- The invariant of the limiter, and the bound on the keys that it tracks.
use ipointel.Base.{
  ℕ, ◌+◌, ◌%◌, ◌≤◌, String, ◌≡◌, inl, inr, true, some, List, [], ◌∷◌, ◌++◌, arith, leb, ltb, ◌==◌,
  length, Bool-cases, Option-cases,
}
use ipointel.Base.Dict.{Dict, lookup, Unique, put_last-Unique, length-put_last_known}
use ipointel.RateLimit.{
  Limiter, init, sweep, prune, prepare, enforce, decide, hit, bucket_of, without_stale,
}
use ipointel.RateLimit.Fresh.{Ascends, prune-Ascends, append-Ascends}
use ipointel.RateLimit.Sweep.{
  Sorted, Sorted-later, Sorted-put_last, Sorted-without_stale, Sorted-evict, Unique-without_stale,
  Unique-evict, length-without_stale, length-evict, bucket-Ascends,
}

-- At time `now`: one bucket to a key, each in time order, and no more keys than allowed.
pub record IsValid (now : ℕ) (s : Limiter) : Type 0 where
  pub unique : Unique s.buckets
  pub sorted : Sorted now s.buckets
  pub small : length s.buckets ≤ s.max_keys

pub init-IsValid : (now max_keys sweep_every : ℕ) → IsValid now (init max_keys sweep_every)
unfolding init
init-IsValid now m n = record { unique = tt; sorted = tt; small = omega arith }

pub sweep-IsValid : (now : ℕ) (s : Limiter) → IsValid now s → IsValid now (sweep now s)
unfolding sweep
sweep-IsValid now s v = record {
  unique = Unique-without_stale s.widest_window now s.buckets v.unique;
  sorted = Sorted-without_stale s.widest_window now s.buckets v.sorted;
  small = omega (arith, length-without_stale s.widest_window now s.buckets, v.small);
}

pub prepare-IsValid :
    (window before now : ℕ) (s : Limiter)
    → before ≤ now
    → IsValid before s
    → IsValid now (prepare window now s)
unfolding prepare
prepare-IsValid window before now s h v = elim (Bool-cases ((s.ops + 1) % s.sweep_every == 0)) [
  | inl due ↦ rw due (sweep-IsValid now _ later)
  | inr skipped ↦ rw skipped later
]
  where
    later : {w o : ℕ} → IsValid now (record s { widest_window = w; ops = o })
    later = record {
      unique = v.unique;
      sorted = Sorted-later before now s.buckets h v.sorted;
      small = v.small;
    }

-- The capacity check brings any limiter with distinct keys back under its bound.
pub enforce-IsValid :
    (now : ℕ) (s : Limiter) → Unique s.buckets → Sorted now s.buckets → IsValid now (enforce now s)
unfolding enforce sweep
enforce-IsValid now s u o = elim (Bool-cases (ltb s.max_keys (length s.buckets))) [
  | inl over ↦
      let kept : Dict (List ℕ) = without_stale s.widest_window now s.buckets in
      rw over (record {
        unique =
            Unique-evict s.max_keys kept (Unique-without_stale s.widest_window now s.buckets u);
        sorted =
            Sorted-evict s.max_keys now kept (Sorted-without_stale s.widest_window now s.buckets o);
        small = length-evict s.max_keys kept;
      })
  | inr within ↦ rw within (record { unique = u; sorted = o; small = ground arith })
]

-- A key with no bucket is never rejected at a limit of one or more.
rejected_known :
    (key : String) (limit window now : ℕ) (d : Dict (List ℕ))
    → 1 ≤ limit
    → leb limit (length (prune window now (bucket_of key d))) ≡ true
    → (b : List ℕ) × (lookup key d ≡ some b)
unfolding prune
rejected_known key limit window now d h r = elim (Option-cases (lookup key d)) [
  | inl missing ↦ absurd (ground arith)
  | inr found ↦ found
]

pub decide-IsValid :
    (key : String) (limit window now : ℕ) (s : Limiter)
    → 1 ≤ limit
    → IsValid now s
    → IsValid now (decide key limit window now s).0
unfolding decide
decide-IsValid key limit window now s h v =
    let b = prune window now (bucket_of key s.buckets) in
    let ordered : Ascends 0 now b =
      prune-Ascends 0 now window (bucket_of key s.buckets)
        (bucket-Ascends now key s.buckets v.sorted) in
    elim (Bool-cases (leb limit (length b))) [
      | inl rejected ↦
          let (old, found) = rejected_known key limit window now s.buckets h rejected in
          rw rejected (record {
            unique = put_last-Unique key b s.buckets v.unique;
            sorted = Sorted-put_last now key b s.buckets ordered v.sorted;
            small = omega (arith, length-put_last_known key old b s.buckets found, v.small);
          })
      | inr accepted ↦ rw accepted (
          enforce-IsValid now _ (put_last-Unique key (b ++ now ∷ []) s.buckets v.unique) (
            Sorted-put_last now key (b ++ now ∷ []) s.buckets
              (append-Ascends 0 now b (omega arith) ordered) v.sorted))
    ]

-- From a valid limiter, an attempt at a later time and at a limit of one or more leaves a valid
-- limiter, whatever is decided: distinct keys, buckets in time order, at most `max_keys` of them.
pub hit-IsValid :
    (key : String) (limit window before now : ℕ) (s : Limiter)
    → 1 ≤ limit
    → before ≤ now
    → IsValid before s
    → IsValid now (hit key limit window now s).0
unfolding hit
hit-IsValid key limit window before now s h later v =
    decide-IsValid key limit window now (prepare window now s) h
      (prepare-IsValid window before now s later v)
