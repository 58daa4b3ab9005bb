-- ===== src/Sheets/Rows.antt =====
-- What the operations of the outbox do to one row, and to the leads that have a row.
use ipointel.Base.{
  ℕ, zero, suc, ◌+◌, ◌≤◌, ◌≡◌, refl, inl, inr, Bool, true, false, ◌&&◌, ◌||◌, Option, none, some,
  List, [], ◌∷◌, arith, leb, take, any, All, Bool-cases,
}
use ipointel.Sheets.{
  Status, pending, synced, failed, disabled, Row, Pass, World, is_of, is_pending, is_waiting,
  is_failed, is_exhausted, insert, in_order, newest, write_back, settle, mirror, step, run,
  within_backoff,
}

abbrev pub is_disabled : Status → Bool
is_disabled disabled = true
is_disabled _ = false

-- A row has at most eight attempts; a pending one has none; and none is disabled.
pub record IsSound (r : Row) : Type 0 where
  pub bounded : r.attempt_count ≤ 8
  pub fresh : is_pending r.status ≡ true → r.attempt_count ≡ 0
  pub in_use : is_disabled r.status ≡ false

-- A row that is not exhausted and not disabled has fewer than eight attempts if it is waiting.
settle-IsSound :
    (w : World) (answer : Option _) (r : Row) (p : Pass)
    → IsSound r
    → r.attempt_count + 1 ≤ 8
    → IsSound (settle w answer r p).1
unfolding settle
settle-IsSound w none r p s h = ground arith
settle-IsSound w (some e) r p s h = ground arith

mirror-IsSound :
    (w : World) (lead : Option _) (r : Row) (p : Pass)
    → IsSound r
    → r.attempt_count + 1 ≤ 8
    → IsSound (mirror w lead r p).1
unfolding mirror
mirror-IsSound w none r p s h = ground arith
mirror-IsSound w (some lead) r p s h = settle-IsSound w _ r p s h

attempts_left_at :
    (s : Status) (n : ℕ)
    → (is_pending s ≡ true → n ≡ 0)
    → is_waiting s ≡ true
    → (is_failed s && leb 8 n) ≡ false
    → n + 1 ≤ 8
attempts_left_at pending n f h k = omega (arith, f refl)
attempts_left_at failed n f h k = ground arith
attempts_left_at synced n f h k = cc
attempts_left_at disabled n f h k = cc

-- A waiting row keeps sound over a step of the pass.
pub step-IsSound :
    (w : World) (r : Row) (p : Pass)
    → IsSound r
    → is_waiting r.status ≡ true
    → IsSound (step w r p).1
unfolding step
step-IsSound w r p s h = elim (Bool-cases (is_exhausted r || within_backoff w.now r)) [
  | inl skip ↦ rw skip s
  | inr go ↦ rw go (
      mirror-IsSound w (w.lead_of r.lead_id) r p s
        (attempts_left_at r.status r.attempt_count s.fresh h (ground arith)))
]

pub run-IsSound :
    (w : World) (limit : ℕ) (rows : List Row) (p : Pass)
    → All IsSound rows
    → All (λ r. is_waiting r.status ≡ true) rows
    → All IsSound (run w limit rows p).1
unfolding run
run-IsSound w limit [] p s h = tt
run-IsSound w limit (r ∷ rows) p s h = elim (Bool-cases (leb limit p.processed)) [
  | inl full ↦ rw full s
  | inr more ↦ rw more (step-IsSound w r p s.0 h.0, run-IsSound w limit rows (step w r p).0 s.1 h.1)
]

-- Insertion keeps what holds of every row.
insert-All {ℓ} :
    (P : Row → Type ℓ) (r : Row) (rows : List Row) → P r → All P rows → All P (insert r rows)
unfolding insert
insert-All P r [] h k = (h, tt)
insert-All P r (x ∷ rows) h k = elim (Bool-cases (leb r.created_at x.created_at)) [
  | inl first ↦ rw first (h, k)
  | inr after ↦ rw after (k.0, insert-All P r rows h k.1)
]

pub in_order-All {ℓ} : (P : Row → Type ℓ) (rows : List Row) → All P rows → All P (in_order rows)
unfolding in_order
in_order-All P [] h = tt
in_order-All P (r ∷ rows) h = elim (Bool-cases (is_waiting r.status)) [
  | inl e ↦ rw e (insert-All P r (in_order rows) h.0 (in_order-All P rows h.1))
  | inr e ↦ rw e (in_order-All P rows h.1)
]

pub in_order-waiting : (rows : List Row) → All (λ r. is_waiting r.status ≡ true) (in_order rows)
unfolding in_order
in_order-waiting [] = tt
in_order-waiting (r ∷ rows) = elim (Bool-cases (is_waiting r.status)) [
  | inl e ↦ rw e (insert-All _ r (in_order rows) e (in_order-waiting rows))
  | inr e ↦ rw e (in_order-waiting rows)
]

pub take-All {ℓ} : (P : Row → Type ℓ) (n : ℕ) (rows : List Row) → All P rows → All P (take n rows)
take-All P zero rows h = tt
take-All P (suc n) [] h = tt
take-All P (suc n) (r ∷ rows) h = (h.0, take-All P n rows h.1)

newest-IsSound :
    (r : Row) (done : List Row) → IsSound r → All IsSound done → IsSound (newest r done)
unfolding newest
newest-IsSound r [] s h = s
newest-IsSound r (d ∷ done) s h = elim (Bool-cases (is_of r.lead_id d)) [
  | inl e ↦ rw e h.0
  | inr e ↦ rw e (newest-IsSound r done s h.1)
]

pub write_back-IsSound :
    (done rows : List Row)
    → All IsSound rows
    → All IsSound done
    → All IsSound (write_back done rows)
unfolding write_back
write_back-IsSound done [] s h = tt
write_back-IsSound done (r ∷ rows) s h =
    (newest-IsSound r done s.0 h, write_back-IsSound done rows s.1 h)

-- Every row found for a lead is a row of that lead.
pub newest-lead_id : (r : Row) (done : List Row) → (newest r done).lead_id ≡ r.lead_id
unfolding newest
newest-lead_id r [] = refl
newest-lead_id r (d ∷ done) = ground (arith, newest-lead_id r done)

pub any_of-write_back :
    (lead : ℕ) (done rows : List Row)
    → any (is_of lead) (write_back done rows) ≡ any (is_of lead) rows
unfolding write_back
any_of-write_back lead done [] = refl
any_of-write_back lead done (r ∷ rows) =
    rw (newest-lead_id r done, any_of-write_back lead done rows) refl
