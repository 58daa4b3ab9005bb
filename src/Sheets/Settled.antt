-- ===== src/Sheets/Settled.antt =====
-- A lead that was mirrored is left alone: the passes that follow do not touch its row.
use ipointel.Base.{
  ℕ, zero, suc, ◌*◌, ◌≡◌, refl, ◌∙◌, inl, inr, true, false, ◌&&◌, ◌||◌, some, List, [], ◌∷◌, arith,
  leb, take, any, Bool-cases, some_injective, Option, none,
}
use ipointel.Sheets.{
  Row, Pass, World, SignUp, is_of, is_synced, is_waiting, find, insert, in_order, newest,
  write_back, run, step, mirror, settle, process_outbox, is_exhausted, within_backoff,
}
use ipointel.Sheets.Reach.{Reach, Reach-IsValid, Unique}

none_waiting :
    (lead : ℕ) (rows : List Row)
    → any (is_of lead) rows ≡ false
    → any (λ x. is_of lead x && is_waiting x.status) rows ≡ false
none_waiting lead [] h = refl
none_waiting lead (r ∷ rows) h = ground (arith, none_waiting lead rows)

-- Where no lead has two rows, a lead whose row does not wait has no row that waits.
settled_alone :
    (lead : ℕ) (rows : List Row) (r : Row)
    → Unique rows
    → find lead rows ≡ some r
    → is_waiting r.status ≡ false
    → any (λ x. is_of lead x && is_waiting x.status) rows ≡ false
unfolding find
settled_alone lead [] r u f h = refl
settled_alone lead (x ∷ rows) r u f h = elim (Bool-cases (is_of lead x)) [
  | inl e ↦ ground (arith, none_waiting lead rows, same e)
  | inr e ↦ ground (arith, settled_alone lead rows r u.1)
]
  where
    same : is_of lead x ≡ true → is_waiting x.status ≡ false
    same e = rw (some_injective x r (rw e at f)) h

any_of-insert :
    (lead : ℕ) (r : Row) (rows : List Row)
    → any (is_of lead) (insert r rows) ≡ (is_of lead r || any (is_of lead) rows)
unfolding insert
any_of-insert lead r [] = refl
any_of-insert lead r (x ∷ rows) = ground (arith, any_of-insert lead r rows)

any_of-in_order :
    (lead : ℕ) (rows : List Row)
    → any (is_of lead) (in_order rows) ≡ any (λ x. is_of lead x && is_waiting x.status) rows
unfolding in_order
any_of-in_order lead [] = refl
any_of-in_order lead (r ∷ rows) =
    ground (arith, any_of-in_order lead rows, any_of-insert lead r (in_order rows))

any_of-take :
    (lead n : ℕ) (rows : List Row)
    → any (is_of lead) rows ≡ false
    → any (is_of lead) (take n rows) ≡ false
any_of-take lead zero rows h = refl
any_of-take lead (suc n) [] h = refl
any_of-take lead (suc n) (r ∷ rows) h = ground (arith, any_of-take lead n rows)

settle-lead_id :
    (w : World) (answer : Option _) (r : Row) (p : Pass)
    → (settle w answer r p).1.lead_id ≡ r.lead_id
unfolding settle
settle-lead_id w none r p = refl
settle-lead_id w (some e) r p = refl

mirror-lead_id :
    (w : World) (lead : Option SignUp) (r : Row) (p : Pass)
    → (mirror w lead r p).1.lead_id ≡ r.lead_id
unfolding mirror
mirror-lead_id w none r p = refl
mirror-lead_id w (some lead) r p = settle-lead_id w _ r p

step-lead_id : (w : World) (r : Row) (p : Pass) → (step w r p).1.lead_id ≡ r.lead_id
unfolding step
step-lead_id w r p = elim (Bool-cases (is_exhausted r || within_backoff w.now r)) [
  | inl skip ↦ rw skip refl
  | inr go ↦ rw go (mirror-lead_id w (w.lead_of r.lead_id) r p)
]

any_of-run :
    (lead : ℕ) (w : World) (limit : ℕ) (rows : List Row) (p : Pass)
    → any (is_of lead) (run w limit rows p).1 ≡ any (is_of lead) rows
unfolding run
any_of-run lead w limit [] p = refl
any_of-run lead w limit (r ∷ rows) p = elim (Bool-cases (leb limit p.processed)) [
  | inl full ↦ rw full refl
  | inr more ↦ rw (more, step-lead_id w r p, any_of-run lead w limit rows (step w r p).0) refl
]

newest_untouched :
    (r : Row) (done : List Row) → any (is_of r.lead_id) done ≡ false → newest r done ≡ r
unfolding newest
newest_untouched r [] h = refl
newest_untouched r (d ∷ done) h = ground (arith, newest_untouched r done)

newest-lead_id : (r : Row) (done : List Row) → (newest r done).lead_id ≡ r.lead_id
unfolding newest
newest-lead_id r [] = refl
newest-lead_id r (d ∷ done) = ground (arith, newest-lead_id r done)

find-write_back :
    (lead : ℕ) (done rows : List Row)
    → any (is_of lead) done ≡ false
    → find lead (write_back done rows) ≡ find lead rows
unfolding write_back find
find-write_back lead done [] h = refl
find-write_back lead done (r ∷ rows) h =
    ground (arith, find-write_back lead done rows, newest-lead_id r done, newest_untouched r done)

-- In every outbox that can come about, the row of a lead that was mirrored stays as it is over a pass,
-- whatever the pass does to other rows: a lead is never sent to the spreadsheet again.
pub process_outbox-keeps_synced :
    {rows : List Row} (w : World) (limit lead : ℕ) (r : Row)
    → Reach rows
    → find lead rows ≡ some r
    → is_synced r.status ≡ true
    → find lead (process_outbox w limit rows).1 ≡ some r
unfolding process_outbox
process_outbox-keeps_synced {rows} w limit lead r reach f s = elim (Bool-cases w.configured) [
  | inl on ↦ rw on (find-write_back lead _ rows (untouched _) ∙ f)
  | inr off ↦ rw off f
]
  where
    not_waiting : is_waiting r.status ≡ false
    not_waiting = ground (arith, s)

    untouched :
        (p : Pass) → any (is_of lead) (run w limit (take (limit * 3) (in_order rows)) p).1 ≡ false
    untouched p =
        any_of-run lead w limit (take (limit * 3) (in_order rows)) p
        ∙ any_of-take lead (limit * 3) (in_order rows) (
            any_of-in_order lead rows
            ∙ settled_alone lead rows r (Reach-IsValid reach).unique f not_waiting)
