-- ===== src/Sheets/Stuck.antt =====
-- The limit of the query is taken before exhausted rows are skipped, so these can fill a pass.
use ipointel.Base.{ℕ, ◌*◌, ◌≡◌, refl, inl, inr, true, List, [], ◌∷◌, leb, take, All, Bool-cases}
use ipointel.Sheets.{Row, Pass, World, is_exhausted, in_order, run, step, process_outbox}

-- Exhausted rows pass through the loop as they are, and count for nothing.
run_exhausted :
    (w : World) (limit : ℕ) (rows : List Row) (p : Pass)
    → All (λ r. is_exhausted r ≡ true) rows
    → (run w limit rows p).0 ≡ p
unfolding run
run_exhausted w limit [] p h = refl
run_exhausted w limit (r ∷ rows) p h = elim (Bool-cases (leb limit p.processed)) [
  | inl full ↦ rw full refl
  | inr more ↦ rw (more, skipped r h.0) (run_exhausted w limit rows p h.1)
]
  where
    skipped : (r : Row) → is_exhausted r ≡ true → step w r p ≡ (p, r)
    skipped r e = rw (e, step) refl

-- Once the oldest `limit * 3` waiting rows are all exhausted, a pass sends nothing and counts nothing,
-- whatever rows come after them: a lead that signed up since is not mirrored.
pub process_outbox_stuck :
    (w : World) (limit : ℕ) (rows : List Row)
    → All (λ r. is_exhausted r ≡ true) (take (limit * 3) (in_order rows))
    → (process_outbox w limit rows).0 ≡ record { processed = 0; synced = 0; failed = 0 }
unfolding process_outbox
process_outbox_stuck w limit rows h = elim (Bool-cases w.configured) [
  | inl on ↦ rw on (run_exhausted w limit _ _ h)
  | inr off ↦ rw off refl
]
