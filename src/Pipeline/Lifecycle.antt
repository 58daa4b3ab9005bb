-- ===== src/Pipeline/Lifecycle.antt =====
-- What a report can do to a stored issue.
use text.Mathlib.Text.{◌==◌}
use ipointel.Base.{
  ℕ, ◌≤◌, String, ◌≡◌, inl, inr, Bool, true, false, not, ◌&&◌, Option, none, some, List, [], ◌∷◌,
  arith, if◌then◌else◌, Bool-cases,
}
use ipointel.Base.Dict.{Dict, lookup, put_last, lookup-put_last}
use ipointel.Runtime.{Runtime}
use ipointel.Identity.Status.{rank, feed, rank-feed, status_can_transition}
use ipointel.Pipeline.Sources.{Provenance, add_provenance-IsUnique, IsUnique}
use ipointel.Pipeline.Upsert.{
  Value, text_of, is_blank, Work, Report, differs, observe, write_field, is_stale, keeps_name,
  write_value, write_known, upsert,
}

abbrev pub status_of : {F : Type 0} → Work F → String
status_of w = text_of (lookup "status" w.columns)

-- A status that may follow another ranks as high.
rank_mono :
    (current new : String) → status_can_transition current new ≡ true → rank current ≤ rank new
unfolding feed
rank_mono current new h = rw h at (rank-feed current new)

module _ (py : Runtime) (numeric : String → Option py.F) (shown : Value py.F → String)
    (now ipo_id : ℕ) where
  open py use {F}

  -- No place has two rows of provenance, and the status ranks as high as a given one.
  pub record IsKept (least : ℕ) (w : Work F) : Type 0 where
    pub unique : IsUnique w.provenance
    pub ranked : least ≤ rank (status_of w)

  written_status :
      (f : String) (v : Value F) (columns : Dict (Value F)) (moved : Bool)
      → ((f == "status")
          && not (status_can_transition (text_of (lookup "status" columns)) (text_of (some v))))
        ≡ false
      → rank (text_of (lookup "status" columns))
        ≤ rank (text_of (lookup "status" (if moved then put_last f v columns else columns)))
  written_status f v columns false h = omega arith
  written_status f v columns true h = elim (Bool-cases (f == "status")) [
    | inl e ↦
        rw (lookup-put_last f "status" v columns, e)
          (rank_mono (text_of (lookup "status" columns)) (text_of (some v)) (ground (arith, e)))
    | inr e ↦ rw (lookup-put_last f "status" v columns, e) (omega arith)
  ]

  observe-IsUnique :
      (report : Report F) (f : String) (v : Value F) (provenance : List Provenance)
      → IsUnique provenance
      → IsUnique (observe py numeric shown now ipo_id report f v provenance)
  unfolding observe
  observe-IsUnique report f v provenance u = add_provenance-IsUnique py numeric _ provenance u

  write_field-IsKept :
      (least : ℕ) (report : Report F) (f : String) (v : Value F) (w : Work F)
      → is_stale py numeric shown now ipo_id f v w ≡ false
      → IsKept least w
      → IsKept least (write_field py numeric shown now ipo_id report f v w)
  unfolding write_field
  write_field-IsKept least report f v w h k = record {
    unique = observe-IsUnique report f v w.provenance k.unique;
    ranked = omega (
      arith,
      k.ranked,
      written_status f v w.columns (differs py numeric shown now ipo_id (lookup f w.columns) v) h,
    );
  }

  write_value-IsKept :
      (least : ℕ) (created : Bool) (report : Report F) (f : String) (v : Value F) (w : Work F)
      → IsKept least w
      → IsKept least (write_value py numeric shown now ipo_id created report f v w)
  unfolding write_value
  write_value-IsKept least created report f v w k =
      elim (Bool-cases (is_stale py numeric shown now ipo_id f v w)) [
        | inl stale ↦ rw stale k
        | inr fine ↦
            rw fine (elim (Bool-cases (keeps_name py numeric shown now ipo_id created report f w)) [
              | inl e ↦ rw e (record {
                unique = observe-IsUnique report f v w.provenance k.unique;
                ranked = k.ranked;
              })
              | inr e ↦ rw e (write_field-IsKept least report f v w fine k)
            ])
      ]

  write_known-IsKept :
      (least : ℕ) (created : Bool) (report : Report F) (f : String) (o : Option (Value F))
      (w : Work F)
      → IsKept least w
      → IsKept least (write_known py numeric shown now ipo_id created report f o w)
  write_known-IsKept least created report f none w k = k
  write_known-IsKept least created report f (some v) w k = elim (Bool-cases (is_blank v)) [
    | inl e ↦ rw e k
    | inr e ↦ rw e (write_value-IsKept least created report f v w k)
  ]

  -- Whatever a report says, and from whichever source it comes: where no place had two rows of
  -- provenance, none has after it, and the status of the issue ranks as high after it as any bound that
  -- it met before. So a stale report never brings a listed issue back to an earlier stage.
  pub upsert-IsKept :
      (least : ℕ) (created : Bool) (report : Report F) (fields : List String) (w : Work F)
      → IsKept least w
      → IsKept least (upsert py numeric shown now ipo_id created report fields w)
  unfolding upsert
  upsert-IsKept least created report [] w k = k
  upsert-IsKept least created report (f ∷ fs) w k =
      upsert-IsKept least created report fs _
        (write_known-IsKept least created report f (lookup f report.row) w k)
