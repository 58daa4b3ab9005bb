-- ===== src/Contradictions/Sound.antt =====
-- What each disagreement that `cross_source` reports rests on.
use ipointel.Base.{
  String, ◌≡◌, refl, inl, inr, true, false, Option, none, some, List, [], ◌∷◌, All, All-append,
  arith, eq_iff, Bool-cases,
}
use text.Mathlib.Text.{◌==◌}
use ipointel.Runtime.{Runtime}
use ipointel.Pipeline.Sources.{Provenance, disagrees}
use ipointel.Contradictions.{
  Disagreement, add_to_field, by_field, numeric_rows, row_if, against, pairs, over_fields,
  cross_source,
}

-- Every report of a group is about its field.
abbrev pub IsGroup : String × List Provenance → Type 0
IsGroup (field, ps) = All (λ p. p.field_name ≡ field) ps

add_to_field-IsGroup :
    (p : Provenance) (groups : List (String × List Provenance))
    → All IsGroup groups
    → All IsGroup (add_to_field p groups)
unfolding add_to_field
add_to_field-IsGroup p [] h = ((refl, tt), tt)
add_to_field-IsGroup p ((field, ps) ∷ groups) h = elim (Bool-cases (field == p.field_name)) [
  | inl e ↦ rw e (
    All-append (λ q. q.field_name ≡ field) ps (p ∷ []) h.0
        (ground (arith, eq_iff field p.field_name), tt),
    h.1,
  )
  | inr e ↦ rw e (h.0, add_to_field-IsGroup p groups h.1)
]

by_field-IsGroup :
    (ps : List Provenance) (groups : List (String × List Provenance))
    → All IsGroup groups
    → All IsGroup (by_field ps groups)
unfolding by_field
by_field-IsGroup [] groups h = h
by_field-IsGroup (p ∷ ps) groups h =
    by_field-IsGroup ps (add_to_field p groups) (add_to_field-IsGroup p groups h)

module _ (py : Runtime) (numeric : String → Option py.F) where
  -- A number that a source reports for the field.
  abbrev pub IsReport : String → Provenance × py.F → Type 0
  IsReport field (p, v) = (p.field_name ≡ field) × (numeric p.observed_value ≡ some v)

  -- Two sources report numbers for the field of the finding that lie apart.
  abbrev pub IsReal : Disagreement py.F → Type 0
  IsReal d =
      IsReport d.field (d.evidence_a, d.value_a)
      × IsReport d.field (d.evidence_b, d.value_b)
      × ((d.evidence_a.source_name == d.evidence_b.source_name) ≡ false)
      × (disagrees py numeric d.value_a d.value_b ≡ true)

  row_if-IsReport :
      (field : String) (p : Provenance) (v : Option py.F) (rows : List (Provenance × py.F))
      → p.field_name ≡ field
      → numeric p.observed_value ≡ v
      → All (IsReport field) rows
      → All (IsReport field) (row_if py numeric p v rows)
  unfolding row_if
  row_if-IsReport field p none rows h e k = k
  row_if-IsReport field p (some v) rows h e k = ((h, e), k)

  numeric_rows-IsReport :
      (field : String) (ps : List Provenance)
      → All (λ p. p.field_name ≡ field) ps
      → All (IsReport field) (numeric_rows py numeric ps)
  unfolding numeric_rows
  numeric_rows-IsReport field [] h = tt
  numeric_rows-IsReport field (p ∷ ps) h =
      row_if-IsReport field p (numeric p.observed_value) (numeric_rows py numeric ps) h.0 refl
        (numeric_rows-IsReport field ps h.1)

  against-IsReal :
      (field : String) (a : Provenance × py.F) (bs : List (Provenance × py.F))
      → IsReport field a
      → All (IsReport field) bs
      → All IsReal (against py numeric field a bs)
  unfolding against
  against-IsReal field a [] h k = tt
  against-IsReal field a (b ∷ bs) h k = elim (Bool-cases (a.0.source_name == b.0.source_name)) [
    | inl e ↦ rw e (against-IsReal field a bs h k.1)
    | inr e ↦ rw e (elim (Bool-cases (disagrees py numeric a.1 b.1)) [
      | inl f ↦ rw f ((h, k.0, e, f), against-IsReal field a bs h k.1)
      | inr f ↦ rw f (against-IsReal field a bs h k.1)
    ])
  ]

  pairs-IsReal :
      (field : String) (rows : List (Provenance × py.F))
      → All (IsReport field) rows
      → All IsReal (pairs py numeric field rows)
  unfolding pairs
  pairs-IsReal field [] h = tt
  pairs-IsReal field (a ∷ rows) h =
      All-append IsReal (against py numeric field a rows) (pairs py numeric field rows)
        (against-IsReal field a rows h.0 h.1) (pairs-IsReal field rows h.1)

  over_fields-IsReal :
      (groups : List (String × List Provenance))
      → All IsGroup groups
      → All IsReal (over_fields py numeric groups)
  unfolding over_fields
  over_fields-IsReal [] h = tt
  over_fields-IsReal ((field, ps) ∷ groups) h =
      All-append IsReal (pairs py numeric field (numeric_rows py numeric ps))
        (over_fields py numeric groups)
        (pairs-IsReal field (numeric_rows py numeric ps) (numeric_rows-IsReport field ps h.0))
        (over_fields-IsReal groups h.1)

  -- Every disagreement that `cross_source` reports rests on two reports for its field, from sources
  -- of different names, whose numbers differ by more than the tolerance.
  pub cross_source-IsReal : (ps : List Provenance) → All IsReal (cross_source py numeric ps)
  unfolding cross_source
  cross_source-IsReal ps = over_fields-IsReal (by_field ps []) (by_field-IsGroup ps [] tt)
