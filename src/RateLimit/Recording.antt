-- ===== src/RateLimit/Recording.antt =====
-- An accepted attempt is recorded, and the capacity eviction never takes the key that made it.
use ipointel.Base.{
  ℕ, ◌+◌, ◌-◌, ◌%◌, ◌≤◌, String, ◌≡◌, refl, ap, ◌∙◌, inl, inr, false, none, some, List, [], ◌∷◌,
  ◌++◌, arith, leb, ltb, ◌==◌, length, get_last?, Bool-cases, eq_iff, length-append,
}
use ipointel.Base.Dict.{Dict, lookup, erase, put_last, lookup-erase, lookup-append_one}
use ipointel.RateLimit.{
  Limiter, sweep, prune, prepare, enforce, decide, hit, bucket_of, is_stale, without_stale, evict,
}
use ipointel.RateLimit.Fresh.{prune-eq-fresh}
use ipointel.RateLimit.Sweep.{bucket-Ascends, evict-append_one, missing-without_stale}
use ipointel.RateLimit.Bounds.{IsValid, prepare-IsValid}
use ipointel.RateLimit.Decision.{
  counted, counted-prepare, decide_lem, fresh-fresh, fresh-append_now,
}

last-append_one : (b : List ℕ) (t : ℕ) → get_last? (b ++ t ∷ []) ≡ some t
last-append_one [] t = refl
last-append_one (x ∷ []) t = refl
last-append_one (x ∷ y ∷ b) t = last-append_one (y ∷ b) t

just_hit_lasts :
    (widest now : ℕ) (b : List ℕ) → 1 ≤ widest → is_stale widest now (b ++ now ∷ []) ≡ false
just_hit_lasts widest now b h = ground (arith, last-append_one b now)

without_stale-append_one :
    (widest now : ℕ) (k : String) (b : List ℕ) (d : Dict (List ℕ))
    → is_stale widest now b ≡ false
    → without_stale widest now (d ++ (k, b) ∷ []) ≡ without_stale widest now d ++ (k, b) ∷ []
unfolding without_stale
without_stale-append_one widest now k b [] h = rw h
without_stale-append_one widest now k b ((j, c) ∷ d) h = elim (Bool-cases (is_stale widest now c)) [
  | inl old ↦ rw old (without_stale-append_one widest now k b d h)
  | inr new ↦ rw new (ap (λ r. (j, c) ∷ r) (without_stale-append_one widest now k b d h))
]

missing-evict :
    (m : ℕ) (k : String) (d : Dict (List ℕ)) → lookup k d ≡ none → lookup k (evict m d) ≡ none
unfolding evict
missing-evict m k [] h = refl
missing-evict m k ((j, c) ∷ d) h = ground (arith, missing-evict m k d)

-- The entry at the end outlives the sweep and the eviction, where one key may be kept.
lookup-enforce_last :
    (now : ℕ) (k : String) (b : List ℕ) (d : Dict (List ℕ)) (s : Limiter)
    → s.buckets ≡ d ++ (k, b) ∷ []
    → lookup k d ≡ none
    → 1 ≤ s.max_keys
    → is_stale s.widest_window now b ≡ false
    → lookup k (enforce now s).buckets ≡ some b
unfolding enforce sweep
lookup-enforce_last now k b d s e missing room live =
    elim (Bool-cases (ltb s.max_keys (length s.buckets))) [
      | inl over ↦ rw over (
          rw e (
            rw (without_stale-append_one s.widest_window now k b d live) (
              rw (evict-append_one s.max_keys (without_stale s.widest_window now d) (k, b) room) (
                found (evict (s.max_keys - 1) (without_stale s.widest_window now d)) (
                  missing-evict (s.max_keys - 1) k (without_stale s.widest_window now d)
                    (missing-without_stale s.widest_window now k d missing))))))
      | inr within ↦ rw within (rw e (found d missing))
    ]
  where
    found : (c : Dict (List ℕ)) → lookup k c ≡ none → lookup k (c ++ (k, b) ∷ []) ≡ some b
    found c h = ground (arith, lookup-append_one k k b c h, eq_iff k k)

erased : (k : String) (d : Dict (List ℕ)) → lookup k (erase k d) ≡ none
erased k d = ground (arith, lookup-erase k k d, eq_iff k k)

decide_accepted :
    (key : String) (limit window now : ℕ) (s : Limiter)
    → 1 ≤ window
    → window ≤ s.widest_window
    → 1 ≤ s.max_keys
    → IsValid now s
    → (decide key limit window now s).1 ≡ false
    → counted key window now (decide key limit window now s).0
      ≡ counted key window now s ++ now ∷ []
unfolding decide
decide_accepted key limit window now s w fits room v = elim (Bool-cases (leb limit (length b))) [
  | inl rejected ↦ rw rejected (λ e. cc)
  | inr accepted ↦ rw accepted (λ _. ground (
    arith,
    lookup-enforce_last now key (b ++ now ∷ []) (erase key s.buckets)
        (record s { buckets = put_last key (b ++ now ∷ []) s.buckets }) refl (erased key s.buckets)
        room (just_hit_lasts s.widest_window now b (omega arith)),
    fresh-append_now window now b w,
    fresh-fresh window now (bucket_of key s.buckets),
    same,
  ))
]
  where
    b : List ℕ
    b = prune window now (bucket_of key s.buckets)

    same : prune window now (bucket_of key s.buckets) ≡ counted key window now s
    same =
        prune-eq-fresh 0 now window (bucket_of key s.buckets)
          (bucket-Ascends now key s.buckets v.sorted)

-- What `prepare` leaves alone or widens.
prepare_fields :
    (window now : ℕ) (s : Limiter)
    → ((prepare window now s).max_keys ≡ s.max_keys)
      × (window ≤ (prepare window now s).widest_window)
unfolding prepare sweep
prepare_fields window now s = elim (Bool-cases ((s.ops + 1) % s.sweep_every == 0)) [
  | inl due ↦ rw due (refl, omega arith)
  | inr skipped ↦ rw skipped (refl, omega arith)
]

-- From a valid limiter that may keep a key, an attempt that is not rejected, for a window of at
-- least one tick, adds exactly its own time to the count of its key, though other keys may be
-- swept or evicted on the way.
pub hit_accepted :
    (key : String) (limit window before now : ℕ) (s : Limiter)
    → 1 ≤ window
    → 1 ≤ s.max_keys
    → before ≤ now
    → IsValid before s
    → (hit key limit window now s).1 ≡ false
    → counted key window now (hit key limit window now s).0 ≡ counted key window now s ++ now ∷ []
unfolding hit
hit_accepted key limit window before now s w room h v a =
    let fields = prepare_fields window now s in
    decide_accepted key limit window now (prepare window now s) w fields.1 (omega arith)
      (prepare-IsValid window before now s h v) a
    ∙ ap (λ c. c ++ now ∷ []) (counted-prepare key window before now s h v)

-- Under the same conditions the count of the key stays within the limit: at most `limit` requests
-- of one client are let through in any window that ends at one of them.
pub hit_within_limit :
    (key : String) (limit window before now : ℕ) (s : Limiter)
    → 1 ≤ window
    → 1 ≤ s.max_keys
    → before ≤ now
    → IsValid before s
    → (hit key limit window now s).1 ≡ false
    → length (counted key window now (hit key limit window now s).0) ≤ limit
unfolding hit
hit_within_limit key limit window before now s w room h v a =
    let decided =
      decide_lem key limit window now (prepare window now s)
        (prepare-IsValid window before now s h v) in
    rw (hit_accepted key limit window before now s w room h v a) (
      ground (
        arith,
        length-append {0} (counted key window now s) (now ∷ []),
        decided,
        counted-prepare key window before now s h v,
      ))
