-- ===== src/RateLimit/Sweep.antt =====
-- What the sweep and the eviction of `_sweep` and `hit` do to the buckets of the keys.
use ipointel.Base.{
  ℕ, ◌-◌, ◌≤◌, String, ◌≡◌, refl, inl, inr, false, none, some, List, [], ◌∷◌, ◌++◌, arith, length,
  length-append, Bool-cases, eq_iff,
}
use ipointel.Base.Dict.{Dict, lookup, erase, put_last, Unique}
use ipointel.RateLimit.{is_stale, without_stale, evict, bucket_of}
use ipointel.RateLimit.Fresh.{Ascends, Ascends-later, fresh, stale-fresh}

-- Every bucket is in time order and ends by `now`.
abbrev pub Sorted : ℕ → Dict (List ℕ) → Type 0
Sorted now [] = Unit
Sorted now ((k, b) ∷ d) = Ascends 0 now b × Sorted now d

pub Sorted-later : (now now' : ℕ) (d : Dict (List ℕ)) → now ≤ now' → Sorted now d → Sorted now' d
Sorted-later now now' [] h s = tt
Sorted-later now now' ((k, b) ∷ d) h s =
    (Ascends-later 0 now now' b h s.0, Sorted-later now now' d h s.1)

pub Sorted-erase :
    (now : ℕ) (k : String) (d : Dict (List ℕ)) → Sorted now d → Sorted now (erase k d)
Sorted-erase now k [] s = tt
Sorted-erase now k ((j, b) ∷ d) s = ground (arith, Sorted-erase now k d)

Sorted-append_one :
    (now : ℕ) (k : String) (b : List ℕ) (d : Dict (List ℕ))
    → Ascends 0 now b
    → Sorted now d
    → Sorted now (d ++ (k, b) ∷ [])
Sorted-append_one now k b [] h s = (h, tt)
Sorted-append_one now k b (e ∷ d) h s = (s.0, Sorted-append_one now k b d h s.1)

pub Sorted-put_last :
    (now : ℕ) (k : String) (b : List ℕ) (d : Dict (List ℕ))
    → Ascends 0 now b
    → Sorted now d
    → Sorted now (put_last k b d)
Sorted-put_last now k b d h s = Sorted-append_one now k b (erase k d) h (Sorted-erase now k d s)

pub bucket-Ascends :
    (now : ℕ) (k : String) (d : Dict (List ℕ)) → Sorted now d → Ascends 0 now (bucket_of k d)
bucket-Ascends now k [] s = tt
bucket-Ascends now k ((j, b) ∷ d) s = ground (arith, bucket-Ascends now k d)

module _ (widest now : ℕ) where
  pub Sorted-without_stale :
      (d : Dict (List ℕ)) → Sorted now d → Sorted now (without_stale widest now d)
  unfolding without_stale
  Sorted-without_stale [] s = tt
  Sorted-without_stale ((j, b) ∷ d) s = elim (Bool-cases (is_stale widest now b)) [
    | inl old ↦ rw old (Sorted-without_stale d s.1)
    | inr new ↦ rw new (s.0, Sorted-without_stale d s.1)
  ]

  pub missing-without_stale :
      (k : String) (d : Dict (List ℕ))
      → lookup k d ≡ none
      → lookup k (without_stale widest now d) ≡ none
  unfolding without_stale
  missing-without_stale k [] h = refl
  missing-without_stale k ((j, b) ∷ d) h = elim (Bool-cases (is_stale widest now b)) [
    | inl old ↦ rw old (ground (arith, missing-without_stale k d))
    | inr new ↦ rw new (ground (arith, missing-without_stale k d))
  ]

  pub Unique-without_stale : (d : Dict (List ℕ)) → Unique d → Unique (without_stale widest now d)
  unfolding without_stale
  Unique-without_stale [] u = tt
  Unique-without_stale ((j, b) ∷ d) u = elim (Bool-cases (is_stale widest now b)) [
    | inl old ↦ rw old (Unique-without_stale d u.1)
    | inr new ↦ rw new (missing-without_stale j d u.0, Unique-without_stale d u.1)
  ]

  pub length-without_stale : (d : Dict (List ℕ)) → length (without_stale widest now d) ≤ length d
  unfolding without_stale
  length-without_stale [] = omega arith
  length-without_stale ((j, b) ∷ d) = elim (Bool-cases (is_stale widest now b)) [
    | inl old ↦ rw old (omega (arith, length-without_stale d))
    | inr new ↦ rw new (omega (arith, length-without_stale d))
  ]

  -- The sweep takes no hit that a window of at most the widest one still counts.
  pub fresh-without_stale :
      (window : ℕ) (k : String) (d : Dict (List ℕ))
      → window ≤ widest
      → Unique d
      → Sorted now d
      → fresh window now (bucket_of k (without_stale widest now d))
        ≡ fresh window now (bucket_of k d)
  unfolding without_stale
  fresh-without_stale window k [] h u s = refl
  fresh-without_stale window k ((j, b) ∷ d) h u s = elim (Bool-cases (is_stale widest now b)) [
    | inl old ↦ rw old (
        ground (
          arith,
          fresh-without_stale window k d h u.1 s.1,
          stale-fresh 0 now window widest b s.0 h old,
          missing-without_stale j d u.0,
          eq_iff j k,
        ))
    | inr new ↦ rw new (ground (arith, fresh-without_stale window k d h u.1 s.1))
  ]

  -- A bucket that still counts something stays as it is.
  pub lookup-without_stale :
      (k : String) (b : List ℕ) (d : Dict (List ℕ))
      → lookup k d ≡ some b
      → is_stale widest now b ≡ false
      → lookup k (without_stale widest now d) ≡ some b
  unfolding without_stale
  lookup-without_stale k b [] h n = cc
  lookup-without_stale k b ((j, c) ∷ d) h n = elim (Bool-cases (is_stale widest now c)) [
    | inl old ↦ rw old (ground (arith, lookup-without_stale k b d))
    | inr new ↦ rw new (ground (arith, lookup-without_stale k b d))
  ]

module _ (m : ℕ) where
  pub length-evict : (d : Dict (List ℕ)) → length (evict m d) ≤ m
  unfolding evict
  length-evict [] = omega arith
  length-evict (e ∷ d) = ground (arith, length-evict d)

  pub Sorted-evict : (now : ℕ) (d : Dict (List ℕ)) → Sorted now d → Sorted now (evict m d)
  unfolding evict
  Sorted-evict now [] s = tt
  Sorted-evict now (e ∷ d) s = ground (arith, Sorted-evict now d)

  pub Unique-evict : (d : Dict (List ℕ)) → Unique d → Unique (evict m d)
  unfolding evict
  Unique-evict [] u = tt
  Unique-evict (e ∷ d) u = ground (arith, Unique-evict d)

  -- Eviction only removes: what is found after it was there before.
  pub lookup-evict :
      (k : String) (b : List ℕ) (d : Dict (List ℕ))
      → Unique d
      → lookup k (evict m d) ≡ some b
      → lookup k d ≡ some b
  unfolding evict
  lookup-evict k b [] u h = cc
  lookup-evict k b ((j, c) ∷ d) u h = ground (arith, lookup-evict k b d, eq_iff j k)

  pub evict-append_one :
      (d : Dict (List ℕ)) (e : String × List ℕ)
      → 1 ≤ m
      → evict m (d ++ e ∷ []) ≡ evict (m - 1) d ++ e ∷ []
  unfolding evict
  evict-append_one [] e h = ground arith
  evict-append_one (x ∷ d) e h =
      ground (arith, evict-append_one d e h, length-append {0} d (e ∷ []))
