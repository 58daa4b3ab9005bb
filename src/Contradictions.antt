-- ===== src/Contradictions.antt =====
-- app/services/contradictions.py: disagreements between sources, and figures of one record that do not
-- fit together. Of a finding's prose only the code is kept; `numeric` stands for `float` of a text.
pub mod Sound
mod Tests
use ipointel.Base.{
  ℕ, String, Bool, true, false, not, ◌&&◌, ◌||◌, Option, none, some, List, [], ◌∷◌, ◌++◌, length,
  leb, is_some, if◌then◌else◌,
}
use text.Mathlib.Text.{◌==◌}
use ipointel.Runtime.{Runtime}
use ipointel.Runtime.Order.{num, lt, minimum, maximum}
use ipointel.Ipo.{Ipo}
use ipointel.Scoring.{known}
use ipointel.RedFlags.{both_known}
use ipointel.Pipeline.Sources.{Provenance, disagrees}

-- A finding of `cross_source`: the field, and the two reports that disagree on it.
pub record Disagreement (F : Type 0) : Type 0 where
  pub field : String
  pub evidence_a : Provenance
  pub value_a : F
  pub evidence_b : Provenance
  pub value_b : F

-- `by_field.setdefault(p.field_name, []).append(p)`
unfoldable pub add_to_field :
    Provenance → List (String × List Provenance) → List (String × List Provenance)
add_to_field p [] = (p.field_name, p ∷ []) ∷ []
add_to_field p ((field, ps) ∷ groups) =
    let rest = add_to_field p groups in
    if field == p.field_name then (field, ps ++ p ∷ []) ∷ groups else (field, ps) ∷ rest

unfoldable pub by_field :
    List Provenance → List (String × List Provenance) → List (String × List Provenance)
by_field [] groups = groups
by_field (p ∷ ps) groups = by_field ps (add_to_field p groups)

module _ (py : Runtime) (numeric : String → Option py.F) where
  open py use {F}

  unfoldable pub row_if : Provenance → Option F → List (Provenance × F) → List (Provenance × F)
  row_if p none rows = rows
  row_if p (some v) rows = (p, v) ∷ rows

  -- the rows of a field that are numbers
  unfoldable pub numeric_rows : List Provenance → List (Provenance × F)
  numeric_rows [] = []
  numeric_rows (p ∷ ps) = row_if p (numeric p.observed_value) (numeric_rows ps)

  -- the inner loop: a row against those after it
  unfoldable pub against : String → Provenance × F → List (Provenance × F) → List (Disagreement F)
  against field a [] = []
  against field a (b ∷ bs) =
      let rest = against field a bs in
      if a.0.source_name == b.0.source_name
      then rest
      else if disagrees py numeric a.1 b.1
      then record {
        field = field;
        evidence_a = a.0;
        value_a = a.1;
        evidence_b = b.0;
        value_b = b.1;
      }
        ∷ rest
      else rest

  unfoldable pub pairs : String → List (Provenance × F) → List (Disagreement F)
  pairs field [] = []
  pairs field (a ∷ rows) = against field a rows ++ pairs field rows

  unfoldable pub over_fields : List (String × List Provenance) → List (Disagreement F)
  over_fields [] = []
  over_fields ((field, ps) ∷ groups) = pairs field (numeric_rows ps) ++ over_fields groups

  unfoldable pub cross_source : List Provenance → List (Disagreement F)
  cross_source ps = over_fields (by_field ps [])

pub data Mismatch : Type 0 where
  profit_vs_cash price_outside_band subscription_mismatch structure_mismatch : Mismatch

abbrev pub mismatch_if : Bool → Mismatch → List Mismatch
mismatch_if true m = m ∷ []
mismatch_if false m = []

module _ (py : Runtime) where
  open py use {F, add, sub, mul, dec}

  -- the final price against the band, the ends in either order
  unfoldable pub outside_band : Option F → Option F → Option F → Bool
  outside_band (some low) (some final) (some high) =
      let lo = minimum py low high in
      let hi = maximum py low high in
      let slack = mul (dec 2 2) (sub hi lo) in
      lt py (num py 0) (sub hi lo) && (lt py final (sub lo slack) || lt py (add hi slack) final)
  outside_band _ _ _ = false

  -- `min` and `max` of a list that is not empty
  unfoldable pub least : F → List F → F
  least m [] = m
  least m (x ∷ xs) = least (minimum py m x) xs

  unfoldable pub most : F → List F → F
  most m [] = m
  most m (x ∷ xs) = most (maximum py m x) xs

  -- the total against at least two categories that are known
  unfoldable pub outside_categories : Option F → List F → Bool
  outside_categories (some total) (x ∷ y ∷ ys) =
      lt py total (sub (least x (y ∷ ys)) (dec 5 1))
      || lt py (add (most x (y ∷ ys)) (dec 5 1)) total
  outside_categories _ _ = false

  unfoldable pub cross_field : Ipo F → List Mismatch
  cross_field ipo =
      mismatch_if
        (both_known py (λ n c. lt py (num py 0) n && lt py c (num py 0)) ipo.net_income_m ipo.cfo_m)
        profit_vs_cash
      ++ (mismatch_if (outside_band ipo.price_low ipo.final_price ipo.price_high) price_outside_band
          ++ (mismatch_if
                (outside_categories ipo.total_sub
                  (known (ipo.qib_sub ∷ ipo.nii_sub ∷ ipo.retail_sub ∷ [])))
                subscription_mismatch
              ++ mismatch_if
                  (both_known py
                    (λ f o. lt py (add f o) (num py 90) || lt py (num py 110) (add f o))
                    ipo.fresh_issue_pct ipo.ofs_pct)
                  structure_mismatch))
