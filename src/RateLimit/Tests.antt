-- ===== src/RateLimit/Tests.antt =====
-- The limiter at work on small inputs, and the theorems at them.
use ipointel.Base.{◌≤◌, ◌≡◌, refl, true, false, arith, leb, length}
use ipointel.RateLimit.{
  Limiter, init, hit, sweep, prepare, decide, enforce, prune, without_stale, evict,
}
use ipointel.RateLimit.Bounds.{IsValid, init-IsValid, hit-IsValid}
use ipointel.RateLimit.Decision.{counted, hit_decision}

-- Two keys at most, a sweep at every second operation, and two hits of "a" at a window of 60.
abbrev one_hit : Limiter
one_hit = (hit "a" 2 60 100 (init 2 2)).0

abbrev two_hits : Limiter
two_hits = (hit "a" 2 60 110 one_hit).0

third_hit_rejected : (hit "a" 2 60 120 two_hits).1 ≡ true
unfolding hit prepare decide enforce sweep without_stale prune evict init
third_hit_rejected = refl

window_passes : (hit "a" 2 60 165 two_hits).1 ≡ false
unfolding hit prepare decide enforce sweep without_stale prune evict init
window_passes = refl

one_hit-IsValid : IsValid 100 one_hit
one_hit-IsValid =
    hit-IsValid "a" 2 60 0 100 (init 2 2) (omega arith) (omega arith) (init-IsValid 0 2 2)

two_hits-IsValid : IsValid 110 two_hits
two_hits-IsValid = hit-IsValid "a" 2 60 100 110 one_hit (omega arith) (omega arith) one_hit-IsValid

room_for_two : 1 ≤ two_hits.max_keys
unfolding hit prepare decide enforce sweep without_stale prune evict init
room_for_two = omega arith

hit-IsValid_example : IsValid 120 (hit "b" 2 60 120 two_hits).0
hit-IsValid_example =
    hit-IsValid "b" 2 60 110 120 two_hits (omega arith) (omega arith) two_hits-IsValid

hit_decision_example : (hit "a" 2 60 120 two_hits).1 ≡ leb 2 (length (counted "a" 60 120 two_hits))
hit_decision_example = hit_decision "a" 2 60 110 120 two_hits (omega arith) two_hits-IsValid
