-- ===== src/RateLimit/Fresh.antt =====
-- Buckets in time order: what `prune` leaves is exactly the part inside the window.
use ipointel.Base.{
  ℕ, ◌+◌, ◌≤◌, ◌≡◌, refl, inl, inr, true, false, List, [], ◌∷◌, ◌++◌, arith, leb, if◌then◌else◌,
  Bool-cases,
}
use ipointel.RateLimit.{prune, is_stale}

-- The times of a bucket ascend, from `lo` on and up to `now`.
abbrev pub Ascends : ℕ → ℕ → List ℕ → Type 0
Ascends lo now [] = Unit
Ascends lo now (t ∷ b) = (lo ≤ t) × (t ≤ now) × Ascends t now b

-- The hits inside the window, counted one by one and in no use of their order.
abbrev pub fresh : ℕ → ℕ → List ℕ → List ℕ
fresh window now [] = []
fresh window now (t ∷ b) =
    let rest = fresh window now b in if leb (t + window) now then rest else t ∷ rest

pub Ascends-lower : (lo lo' now : ℕ) (b : List ℕ) → lo' ≤ lo → Ascends lo now b → Ascends lo' now b
Ascends-lower lo lo' now [] h a = tt
Ascends-lower lo lo' now (t ∷ b) h a = (omega arith, a.1, a.2)

pub Ascends-later :
    (lo now now' : ℕ) (b : List ℕ) → now ≤ now' → Ascends lo now b → Ascends lo now' b
Ascends-later lo now now' [] h a = tt
Ascends-later lo now now' (t ∷ b) h a = (a.0, omega arith, Ascends-later t now now' b h a.2)

-- From an entry inside the window on, all are inside.
fresh-all :
    (lo now window : ℕ) (b : List ℕ)
    → Ascends lo now b
    → leb (lo + window) now ≡ false
    → fresh window now b ≡ b
fresh-all lo now window [] a h = refl
fresh-all lo now window (t ∷ b) a h = ground (arith, fresh-all t now window b a.2)

pub prune-eq-fresh :
    (lo now window : ℕ) (b : List ℕ) → Ascends lo now b → prune window now b ≡ fresh window now b
unfolding prune
prune-eq-fresh lo now window [] a = refl
prune-eq-fresh lo now window (t ∷ b) a =
    ground (arith, prune-eq-fresh t now window b a.2, fresh-all t now window b a.2)

pub prune-Ascends :
    (lo now window : ℕ) (b : List ℕ) → Ascends lo now b → Ascends lo now (prune window now b)
unfolding prune
prune-Ascends lo now window [] a = tt
prune-Ascends lo now window (t ∷ b) a = elim (Bool-cases (leb (t + window) now)) [
  | inl old ↦ rw old (prune-Ascends lo now window b (Ascends-lower t lo now b a.0 a.2))
  | inr new ↦ rw new a
]

pub append-Ascends :
    (lo now : ℕ) (b : List ℕ) → lo ≤ now → Ascends lo now b → Ascends lo now (b ++ now ∷ [])
append-Ascends lo now [] h a = (h, omega arith, tt)
append-Ascends lo now (t ∷ b) h a = (a.0, a.1, append-Ascends t now b a.1 a.2)

-- A bucket whose newest hit has left the widest window has nothing inside a window that fits in it.
pub stale-fresh :
    (lo now window widest : ℕ) (b : List ℕ)
    → Ascends lo now b
    → window ≤ widest
    → is_stale widest now b ≡ true
    → fresh window now b ≡ []
stale-fresh lo now window widest [] a h s = refl
stale-fresh lo now window widest (t ∷ []) a h s = ground arith
stale-fresh lo now window widest (t ∷ u ∷ b) a h s =
    ground (arith, stale-fresh t now window widest (u ∷ b) a.2 h s, first)
  where
    last_from :
        (x : ℕ) (c : List ℕ)
        → Ascends x now c
        → is_stale widest now (x ∷ c) ≡ true
        → x + window ≤ now
    last_from x [] a s = ground arith
    last_from x (y ∷ c) a s = let r : y + window ≤ now = last_from y c a.2 s in omega arith

    first : t + window ≤ now
    first = last_from t (u ∷ b) a.2 s
