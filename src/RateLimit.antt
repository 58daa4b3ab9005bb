-- ===== src/RateLimit.antt =====
-- app/services/ratelimit.py: the bounded in-memory sliding-window rate limiter.
-- Times are ticks of the monotonic clock as naturals. `t <= now - w` is written `t + w ≤ now`,
-- since `-` stops at 0 on the naturals. The clock's reading is an argument of each call.
pub mod Fresh
pub mod Sweep
pub mod Bounds
pub mod Decision
pub mod Recording
mod Tests
use ipointel.Base.{
  ℕ, ◌+◌, ◌%◌, max, String, Bool, true, false, Option, none, some, List, [], ◌∷◌, ◌++◌, ltb, leb,
  ◌==◌, length, get_last?, if◌then◌else◌,
}
use ipointel.Base.Dict.{Dict, lookup, put_last}

-- `buckets` is the OrderedDict, least recently used key first; a bucket is a deque of hit times.
pub record Limiter : Type 0 where
  pub buckets : Dict (List ℕ)
  pub max_keys : ℕ
  pub sweep_every : ℕ
  pub widest_window : ℕ
  pub ops : ℕ

-- `__init__`
unfoldable pub init : ℕ → ℕ → Limiter
init max_keys sweep_every = record {
  buckets = [];
  max_keys = max_keys;
  sweep_every = sweep_every;
  widest_window = 0;
  ops = 0;
}

-- `clear`
unfoldable pub clear : Limiter → Limiter
clear s = record s { buckets = []; widest_window = 0; ops = 0 }

-- `not b or b[-1] <= cutoff` of `_sweep`
abbrev pub is_stale : ℕ → ℕ → List ℕ → Bool
is_stale widest now b = elim (get_last? b) [ none ↦ true | some t ↦ leb (t + widest) now ]

-- The entries that `_sweep` leaves.
pub without_stale : ℕ → ℕ → Dict (List ℕ) → Dict (List ℕ)
without_stale widest now [] = []
without_stale widest now ((k, b) ∷ d) =
    let rest = without_stale widest now d in if is_stale widest now b then rest else (k, b) ∷ rest

-- `_sweep`, without the count that it returns for the tests
unfoldable pub sweep : ℕ → Limiter → Limiter
sweep now s = record s { buckets = without_stale s.widest_window now s.buckets }

-- `while bucket and bucket[0] <= cutoff: bucket.popleft()`
unfoldable pub prune : ℕ → ℕ → List ℕ → List ℕ
prune window now [] = []
prune window now (t ∷ b) = if leb (t + window) now then prune window now b else t ∷ b

-- `while len(self._buckets) > self._max_keys: self._buckets.popitem(last=False)`
pub evict : ℕ → Dict (List ℕ) → Dict (List ℕ)
evict max_keys [] = []
evict max_keys (e ∷ d) = if ltb max_keys (length (e ∷ d)) then evict max_keys d else e ∷ d

-- The bucket of a key, a new deque where there is none.
abbrev pub bucket_of : String → Dict (List ℕ) → List ℕ
bucket_of key d = elim (lookup key d) [ none ↦ [] | some b ↦ b ]

-- The first lines of `hit`: the widest window, the operation count and the amortised sweep.
unfoldable pub prepare : ℕ → ℕ → Limiter → Limiter
prepare window now s =
    let s' = record s { widest_window = max s.widest_window window; ops = s.ops + 1 } in
    if s'.ops % s'.sweep_every == 0 then sweep now s' else s'

-- The capacity check after a hit was recorded.
unfoldable pub enforce : ℕ → Limiter → Limiter
enforce now s =
    if ltb s.max_keys (length s.buckets)
    then (let s' = sweep now s in record s' { buckets = evict s'.max_keys s'.buckets })
    else s

-- The decision of `hit` on the prepared limiter: `true` rejects the request.
unfoldable pub decide : String → ℕ → ℕ → ℕ → Limiter → Limiter × Bool
decide key limit window now s =
    let b = prune window now (bucket_of key s.buckets) in
    if leb limit (length b)
    then (record s { buckets = put_last key b s.buckets }, true)
    else (enforce now (record s { buckets = put_last key (b ++ now ∷ []) s.buckets }), false)

-- `hit`
unfoldable pub hit : String → ℕ → ℕ → ℕ → Limiter → Limiter × Bool
hit key limit window now s = decide key limit window now (prepare window now s)
