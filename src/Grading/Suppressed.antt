-- ===== src/Grading/Suppressed.antt =====
-- What `_grade` publishes where `windowed_returns` has suppressed the listing return, and how
-- `sync_prediction_outcomes` sorts the ledger.
use ipointel.Base.{
  ℕ, ◌+◌, String, ◌≡◌, refl, inl, inr, Bool, true, Option, some, List, [], ◌∷◌, arith, length,
  length-append, ◌==◌, Bool-cases,
}
use ipointel.Runtime.{Runtime}
use ipointel.Runtime.Order.{num}
use ipointel.Ipo.{Ipo}
use ipointel.Market.{Bar, Returns, windowed_returns, is_implausible}
use ipointel.Market.Windows.{windowed_returns_suppressed}
use ipointel.Grading.{Outcome}
use ipointel.Grading.Ledger.{Row, Tally, bump, sum, sum-bump}
use ipointel.Grading.Grader.{grade, add_todo, sort_out}

module _ (py : Runtime) where
  -- Where the listing return of an issue without splits was suppressed as implausible, `_grade` works
  -- it out again from the close and publishes it, rounded.
  pub grade_republishes :
      (bars : List (Bar py.F)) (listing_ts : ℕ) (ipo : Ipo py.F) (p : py.F) (r : Returns py.F)
      (bench : Option py.F) (url : String) (when : ℕ) (o : Outcome py.F)
      → ipo.final_price ≡ some p
      → py.mul p (num py 1) ≡ p
      → windowed_returns py bars (some listing_ts) (some p) [] ≡ some r
      → r.suppressed ≡ true
      → (v : py.F) × ((grade py ipo r bench url when o).listing_close_return_pct
          ≡ some (py.round v 2))
        × (is_implausible py v ≡ true)
  unfolding grade
  grade_republishes bars listing_ts ipo p r bench url when o priced unit e hidden =
      let (gone, (v, value, bad)) =
        windowed_returns_suppressed py bars listing_ts p r unit e hidden in
      (v, rw (gone, priced, value) refl, bad)

-- How many snapshots are to be attempted.
abbrev pub todo_size : List (ℕ × List ℕ) → ℕ
todo_size [] = 0
todo_size ((i, ids) ∷ todo) = length ids + todo_size todo

add_todo_size :
    (ipo_id id : ℕ) (todo : List (ℕ × List ℕ))
    → todo_size (add_todo ipo_id id todo) ≡ 1 + todo_size todo
unfolding add_todo
add_todo_size ipo_id id [] = omega arith
add_todo_size ipo_id id ((i, ids) ∷ todo) = elim (Bool-cases (i == ipo_id)) [
  | inl e ↦ rw e (omega (arith, length-append ids (id ∷ [])))
  | inr e ↦ rw e (omega (arith, add_todo_size ipo_id id todo))
]

-- Every ledger row is either put down for an attempt or counted as skipped in its category, never
-- both and never neither.
pub sort_out_total :
    (attempted : Row → Bool) (rows : List Row) (todo : List (ℕ × List ℕ)) (skipped : Tally)
    → todo_size (sort_out attempted rows todo skipped).0
        + sum (sort_out attempted rows todo skipped).1
      ≡ length rows + todo_size todo + sum skipped
unfolding sort_out
sort_out_total attempted [] todo skipped = omega arith
sort_out_total attempted (row ∷ rows) todo skipped = elim (Bool-cases (attempted row)) [
  | inl e ↦ rw e (
      omega (
        arith,
        sort_out_total attempted rows (add_todo row.ipo_id row.snapshot_id todo) skipped,
        add_todo_size row.ipo_id row.snapshot_id todo,
      ))
  | inr e ↦ rw e (
      omega (
        arith,
        sort_out_total attempted rows todo (bump row.category skipped),
        sum-bump row.category skipped,
      ))
]
