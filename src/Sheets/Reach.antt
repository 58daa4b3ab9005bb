-- ===== src/Sheets/Reach.antt =====
-- The life of the outbox: sign-ups, passes and manual retries in any order, and what holds throughout.
use ipointel.Base.{
  ℕ, ◌+◌, ◌*◌, ◌≡◌, refl, ◌∙◌, inl, inr, false, ◌||◌, none, List, [], ◌∷◌, ◌++◌, arith, ◌==◌,
  length, any, All, All-append, Bool-cases, Option-cases, if◌then◌else◌,
}
use ipointel.Sheets.{
  Status, pending, synced, failed, disabled, Row, World, is_of, is_pending, is_synced, is_failed,
  find, write_back, enqueue, process_outbox, retry_failed, count, sync_status_counts,
}
use ipointel.Sheets.Rows.{
  IsSound, is_disabled, run-IsSound, in_order-All, in_order-waiting, take-All, write_back-IsSound,
  any_of-write_back, newest-lead_id,
}

-- No lead has two rows.
abbrev pub Unique : List Row → Type 0
Unique [] = Unit
Unique (r ∷ rows) = (any (is_of r.lead_id) rows ≡ false) × Unique rows

pub data Step : List Row → List Row → Type 0 where
  signs_up : (rows : List Row) (now lead : ℕ) → Step rows (enqueue now lead rows).1
  passes : (rows : List Row) (w : World) (limit : ℕ) → Step rows (process_outbox w limit rows).1
  retries : (rows : List Row) (now : ℕ) → Step rows (retry_failed now rows).1

-- The outboxes that come about from an empty table.
pub data Reach : List Row → Type 0 where
  start : Reach []
  next : {rows rows' : List Row} → Reach rows → Step rows rows' → Reach rows'

pub record IsValid (rows : List Row) : Type 0 where
  pub unique : Unique rows
  pub sound : All IsSound rows

any-append_one :
    (lead : ℕ) (rows : List Row) (r : Row)
    → any (is_of lead) (rows ++ r ∷ []) ≡ (any (is_of lead) rows || r.lead_id == lead)
any-append_one lead [] r = ground arith
any-append_one lead (x ∷ rows) r = ground (arith, any-append_one lead rows r)

append_one-Unique :
    (rows : List Row) (r : Row)
    → any (is_of r.lead_id) rows ≡ false
    → Unique rows
    → Unique (rows ++ r ∷ [])
append_one-Unique [] r h u = (refl, tt)
append_one-Unique (x ∷ rows) r h u = (
  ground (arith, any-append_one x.lead_id rows r, u.0),
  append_one-Unique rows r (ground arith) u.1,
)

find-none : (lead : ℕ) (rows : List Row) → find lead rows ≡ none → any (is_of lead) rows ≡ false
unfolding find
find-none lead [] h = refl
find-none lead (r ∷ rows) h = ground (arith, find-none lead rows)

pub enqueue-IsValid :
    (now lead : ℕ) (rows : List Row) → IsValid rows → IsValid (enqueue now lead rows).1
unfolding enqueue
enqueue-IsValid now lead rows v = elim (Option-cases (find lead rows)) [
  | inl e ↦
      rw (e, enqueue)
        (record {
          unique = append_one-Unique rows _ (find-none lead rows e) v.unique;
          sound =
              All-append IsSound rows _ v.sound
                (record { bounded = omega arith; fresh = λ _. refl; in_use = refl }, tt);
        })
  | inr (row, e) ↦ rw (e, enqueue) v
]

write_back-Unique : (done rows : List Row) → Unique rows → Unique (write_back done rows)
unfolding write_back
write_back-Unique done [] u = tt
write_back-Unique done (r ∷ rows) u = (
  rw (newest-lead_id r done, any_of-write_back r.lead_id done rows) u.0,
  write_back-Unique done rows u.1,
)

process_outbox-IsValid :
    (w : World) (limit : ℕ) (rows : List Row)
    → IsValid rows
    → IsValid (process_outbox w limit rows).1
unfolding process_outbox
process_outbox-IsValid w limit rows v = elim (Bool-cases w.configured) [
  | inl on ↦ rw on (record {
    unique = write_back-Unique _ rows v.unique;
    sound = write_back-IsSound _ rows v.sound (
        run-IsSound w limit _ _ (take-All IsSound (limit * 3) _ (in_order-All IsSound rows v.sound))
          (take-All _ (limit * 3) _ (in_order-waiting rows)));
  })
  | inr off ↦ rw off v
]

any_of-retry_failed :
    (lead now : ℕ) (rows : List Row)
    → any (is_of lead) (retry_failed now rows).1 ≡ any (is_of lead) rows
unfolding retry_failed
any_of-retry_failed lead now [] = refl
any_of-retry_failed lead now (r ∷ rows) = ground (arith, any_of-retry_failed lead now rows)

retry_failed-IsValid :
    (now : ℕ) (rows : List Row) → IsValid rows → IsValid (retry_failed now rows).1
unfolding retry_failed
retry_failed-IsValid now [] v = v
retry_failed-IsValid now (r ∷ rows) v =
    let rest = retry_failed-IsValid now rows (record { unique = v.unique.1; sound = v.sound.1 }) in
    elim (Bool-cases (is_failed r.status)) [
      | inl e ↦ rw e (record {
        unique = (any_of-retry_failed r.lead_id now rows ∙ v.unique.0, rest.unique);
        sound = (record { bounded = omega arith; fresh = λ _. refl; in_use = refl }, rest.sound);
      })
      | inr e ↦ rw e (record {
        unique = (any_of-retry_failed r.lead_id now rows ∙ v.unique.0, rest.unique);
        sound = (v.sound.0, rest.sound);
      })
    ]

Step-IsValid : {rows rows' : List Row} → Step rows rows' → IsValid rows → IsValid rows'
Step-IsValid (signs_up rows now lead) v = enqueue-IsValid now lead rows v
Step-IsValid (passes rows w limit) v = process_outbox-IsValid w limit rows v
Step-IsValid (retries rows now) v = retry_failed-IsValid now rows v

-- Whatever sign-ups, passes and manual retries come in whatever order, with whatever answers of the
-- spreadsheet: no lead ever has two rows, and every row has at most eight attempts, none if it is
-- pending, and is never disabled.
pub Reach-IsValid : {rows : List Row} → Reach rows → IsValid rows
Reach-IsValid start = record { unique = tt; sound = tt }
Reach-IsValid (next r s) = Step-IsValid s (Reach-IsValid r)

counts_at :
    (rows : List Row)
    → All IsSound rows
    → count is_synced rows + count is_pending rows + count is_failed rows ≡ length rows
counts_at [] h = omega arith
counts_at (r ∷ rows) h = omega (arith, counts_at rows h.1, one r.status h.0.in_use)
  where
    one :
        (s : Status)
        → is_disabled s ≡ false
        → (if is_synced s then 1 else 0)
            + (if is_pending s then 1 else 0)
            + (if is_failed s then 1 else 0)
          ≡ 1
    one synced e = refl
    one pending e = refl
    one failed e = refl
    one disabled e = cc

-- At every outbox that can come about, the three counts of the admin page add up to its total.
pub Reach-counts :
    {rows : List Row}
    → Reach rows
    → let c = sync_status_counts rows in c.synced + c.pending + c.failed ≡ c.total
unfolding sync_status_counts
Reach-counts {rows} r = counts_at rows (Reach-IsValid r).sound
