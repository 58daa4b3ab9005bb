-- ===== src/Sheets/Lookup.antt =====
-- `enqueue` and the row of a lead.
use ipointel.Base.{
  ℕ, ◌≡◌, ◌≢◌, refl, ◌∙◌, inl, inr, none, some, List, [], ◌∷◌, ◌++◌, arith, ◌==◌, Option-cases,
  if◌then◌else◌,
}
use ipointel.Sheets.{Row, find, new_row, enqueue}

pub find-append_one :
    (l : ℕ) (rows : List Row) (r : Row)
    → find l rows ≡ none
    → find l (rows ++ r ∷ []) ≡ (if r.lead_id == l then some r else none)
unfolding find
find-append_one l [] r h = refl
find-append_one l (x ∷ rows) r h = ground (arith, find-append_one l rows r)

find-append_found :
    (l : ℕ) (rows : List Row) (r x : Row) → find l rows ≡ some x → find l (rows ++ r ∷ []) ≡ some x
unfolding find
find-append_found l [] r x h = cc
find-append_found l (y ∷ rows) r x h = ground (arith, find-append_found l rows r x)

find-append_other :
    (l : ℕ) (rows : List Row) (r : Row) → r.lead_id ≢ l → find l (rows ++ r ∷ []) ≡ find l rows
find-append_other l rows r h = elim (Option-cases (find l rows)) [
  | inl e ↦ find-append_one l rows r e ∙ ground (arith, e)
  | inr (x, e) ↦ find-append_found l rows r x e ∙ ground (arith, e)
]

pub enqueue_new :
    (now lead : ℕ) (rows : List Row)
    → find lead rows ≡ none
    → enqueue now lead rows ≡ (new_row now lead, rows ++ new_row now lead ∷ [])
unfolding enqueue
enqueue_new now lead rows e = rw (e, enqueue) refl

pub enqueue_known :
    (now lead : ℕ) (rows : List Row) (r : Row)
    → find lead rows ≡ some r
    → enqueue now lead rows ≡ (r, rows)
unfolding enqueue
enqueue_known now lead rows r e = rw (e, enqueue) refl

enqueue_found :
    (now lead : ℕ) (rows : List Row)
    → find lead (enqueue now lead rows).1 ≡ some (enqueue now lead rows).0
enqueue_found now lead rows = elim (Option-cases (find lead rows)) [
  | inl e ↦ rw (enqueue_new now lead rows e) (find-append_one lead rows _ e ∙ ground arith)
  | inr (x, e) ↦ rw (enqueue_known now lead rows x e) e
]

enqueue_others :
    (now lead other : ℕ) (rows : List Row)
    → lead ≢ other
    → find other (enqueue now lead rows).1 ≡ find other rows
enqueue_others now lead other rows h = elim (Option-cases (find lead rows)) [
  | inl e ↦ rw (enqueue_new now lead rows e) (find-append_other other rows _ h)
  | inr (x, e) ↦ rw (enqueue_known now lead rows x e) refl
]

-- After `enqueue` the row of the lead is the one that it returns, a second `enqueue` at any time returns
-- that row again and changes nothing, and the row of any other lead is as before.
pub enqueue-find :
    (now later lead other : ℕ) (rows : List Row)
    → lead ≢ other
    → (find lead (enqueue now lead rows).1 ≡ some (enqueue now lead rows).0)
      × (enqueue later lead (enqueue now lead rows).1 ≡ enqueue now lead rows)
      × (find other (enqueue now lead rows).1 ≡ find other rows)
enqueue-find now later lead other rows h = (
  enqueue_found now lead rows,
  enqueue_known later lead (enqueue now lead rows).1 _ (enqueue_found now lead rows),
  enqueue_others now lead other rows h,
)
