-- ===== src/Pipeline/Sources.antt =====
-- `add_provenance` of app/services/pipeline.py: what each source reports for a field, and which reports
-- conflict. `numeric` stands for `float` of a text, none where it raises.
use ipointel.Base.{
  ℕ, String, ◌≡◌, refl, ◌∙◌, inl, inr, Bool, false, not, ◌&&◌, Option, some, List, [], ◌∷◌, arith,
  any, is_empty, leb, if◌then◌else◌, eq_iff, Bool-cases,
}
use text.Mathlib.Text.{◌==◌}
use ipointel.Runtime.{Runtime}
use ipointel.Runtime.Order.{lt, maximum}
use ipointel.Email.Alerts.{size}

pub record Provenance : Type 0 where
  pub ipo_id : ℕ
  pub field_name : String
  pub source_name : String
  pub source_url : String
  pub source_tier : ℕ
  pub observed_value : String
  pub observed_at : ℕ
  pub is_conflict : Bool

abbrev pub same_id : ℕ → ℕ → Bool
same_id a b = leb a b && leb b a

abbrev pub same_field : Provenance → Provenance → Bool
same_field p q = same_id p.ipo_id q.ipo_id && (p.field_name == q.field_name)

-- the unique constraint: IPO, field and URL
abbrev pub same_place : Provenance → Provenance → Bool
same_place p q = same_field p q && (p.source_url == q.source_url)

-- The row of the place is updated, or a new one is added; a row that is updated keeps its flag.
unfoldable pub write_place : Provenance → List Provenance → List Provenance
write_place p [] = p ∷ []
write_place p (q ∷ qs) =
    let rest = write_place p qs in
    if same_place p q
    then record q {
      observed_value = p.observed_value;
      observed_at = p.observed_at;
      source_tier = p.source_tier;
      source_name = p.source_name;
    }
      ∷ qs
    else q ∷ rest

module _ (py : Runtime) (numeric : String → Option py.F) where
  open py use {F, sub, div, dec}

  -- `abs(new_val - ov) / base > 0.04`
  abbrev pub disagrees : F → F → Bool
  disagrees a b =
      lt py (dec 4 2)
        (div (size py (sub a b)) (maximum py (maximum py (size py a) (size py b)) (dec 1 9)))

  -- the flag of another source's row, once the new value is there
  unfoldable pub flagged : Option F → Option F → Bool → Bool
  flagged (some v) (some ov) flag = disagrees v ov
  flagged _ _ flag = flag

  -- a row of the same field from another source
  abbrev pub is_other : Provenance → Provenance → Bool
  is_other p q = same_field p q && not (q.source_name == p.source_name)

  unfoldable pub conflicts_with : Option F → Option F → Bool
  conflicts_with v ov = flagged v ov false

  -- `conflict`
  unfoldable pub has_conflict : Provenance → List Provenance → Bool
  has_conflict p qs =
      any
        (λ q. is_other p q && conflicts_with (numeric p.observed_value) (numeric q.observed_value))
        qs

  -- The flags of the others are written, then that of the row itself.
  unfoldable pub write_flags : Bool → Provenance → List Provenance → List Provenance
  write_flags conflict p [] = []
  write_flags conflict p (q ∷ qs) =
      let rest = write_flags conflict p qs in
      (if is_other p q
        then record q {
          is_conflict = flagged (numeric p.observed_value) (numeric q.observed_value) q.is_conflict;
        }
        else if same_place p q
        then record q { is_conflict = conflict }
        else q)
      ∷ rest

  unfoldable pub add_provenance : Provenance → List Provenance → List Provenance
  add_provenance p qs =
      let written = write_place p qs in
      if is_empty p.observed_value then qs else write_flags (has_conflict p written) p written

-- At most one row for each IPO, field and URL.
abbrev pub IsUnique : List Provenance → Type 0
IsUnique [] = Unit
IsUnique (p ∷ ps) = (any (same_place p) ps ≡ false) × IsUnique ps

write_place-any :
    (r p : Provenance) (qs : List Provenance)
    → same_place r p ≡ false
    → any (same_place r) qs ≡ false
    → any (same_place r) (write_place p qs) ≡ false
unfolding write_place
write_place-any r p [] h k = rw h refl
write_place-any r p (q ∷ qs) h k = elim (Bool-cases (same_place p q)) [
  | inl e ↦ rw e k
  | inr e ↦ rw e (ground (arith, write_place-any r p qs h))
]

same_place_sym : (p q : Provenance) → same_place p q ≡ same_place q p
same_place_sym p q = ground (
  arith,
  eq_iff p.field_name q.field_name,
  eq_iff q.field_name p.field_name,
  eq_iff p.source_url q.source_url,
  eq_iff q.source_url p.source_url,
)

write_place-IsUnique :
    (p : Provenance) (qs : List Provenance) → IsUnique qs → IsUnique (write_place p qs)
unfolding write_place
write_place-IsUnique p [] u = (refl, tt)
write_place-IsUnique p (q ∷ qs) u = elim (Bool-cases (same_place p q)) [
  | inl e ↦ rw e u
  | inr e ↦
      rw e (write_place-any q p qs (same_place_sym q p ∙ e) u.0, write_place-IsUnique p qs u.1)
]

module _ (py : Runtime) (numeric : String → Option py.F) where
  write_flags-any :
      (conflict : Bool) (r p : Provenance) (qs : List Provenance)
      → any (same_place r) (write_flags py numeric conflict p qs) ≡ any (same_place r) qs
  unfolding write_flags
  write_flags-any conflict r p [] = refl
  write_flags-any conflict r p (q ∷ qs) = elim (Bool-cases (is_other py numeric p q)) [
    | inl e ↦ rw e (rw (write_flags-any conflict r p qs) refl)
    | inr e ↦ rw e (elim (Bool-cases (same_place p q)) [
      | inl f ↦ rw (f, write_flags-any conflict r p qs) refl
      | inr f ↦ rw (f, write_flags-any conflict r p qs) refl
    ])
  ]

  write_flags-IsUnique :
      (conflict : Bool) (p : Provenance) (qs : List Provenance)
      → IsUnique qs
      → IsUnique (write_flags py numeric conflict p qs)
  unfolding write_flags
  write_flags-IsUnique conflict p [] u = tt
  write_flags-IsUnique conflict p (q ∷ qs) u = elim (Bool-cases (is_other py numeric p q)) [
    | inl e ↦ rw e (write_flags-any conflict q p qs ∙ u.0, write_flags-IsUnique conflict p qs u.1)
    | inr e ↦ rw e (elim (Bool-cases (same_place p q)) [
      | inl f ↦ rw f (write_flags-any conflict q p qs ∙ u.0, write_flags-IsUnique conflict p qs u.1)
      | inr f ↦ rw f (write_flags-any conflict q p qs ∙ u.0, write_flags-IsUnique conflict p qs u.1)
    ])
  ]

  -- `add_provenance` keeps at most one row for each IPO, field and URL.
  pub add_provenance-IsUnique :
      (p : Provenance) (qs : List Provenance)
      → IsUnique qs
      → IsUnique (add_provenance py numeric p qs)
  unfolding add_provenance
  add_provenance-IsUnique p qs u = elim (Bool-cases (is_empty p.observed_value)) [
    | inl e ↦ rw e u
    | inr e ↦ rw e (
        write_flags-IsUnique (has_conflict py numeric p (write_place p qs)) p (write_place p qs)
          (write_place-IsUnique p qs u))
  ]
