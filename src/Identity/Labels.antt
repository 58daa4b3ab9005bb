-- ===== src/Identity/Labels.antt =====
-- `sanitize_label` and `sanitize_tree` of app/services/identity.py: no em dash reaches a reader.
use ipointel.Base.{
  ◌≡◌, refl, inl, inr, false, not, Option, none, some, List, [], ◌∷◌, arith, Bool-cases,
  if◌then◌else◌,
}
use ipointel.Base.Text.{Chars, codes, same, contains, replace, contains-replace_one}

-- `EM_DASH`, U+2014
abbrev pub em_dash : Chars
em_dash = 0x2014 ∷ []

-- `LEGACY_LABELS`, in order
abbrev pub legacy_labels : List (Chars × Chars)
legacy_labels =
    (
      codes "INSUFFICIENT RELIABLE DATA — NO RECOMMENDATION",
      codes "INSUFFICIENT RELIABLE DATA: NO RECOMMENDATION",
    )
    ∷ (codes "INVEST — STRONG", codes "INVEST: STRONG")
    ∷ (codes "BOTH — LISTING + LONG TERM", codes "BOTH: LISTING + LONG TERM")
    ∷ (codes "LONG TERM — WAIT FOR PRICE DISCOVERY", codes "LONG TERM: WAIT FOR PRICE DISCOVERY")
    ∷ []

-- `LEGACY_LABELS[text]`, where it is there
unfoldable pub legacy : List (Chars × Chars) → Chars → Option Chars
legacy [] text = none
legacy ((old, new) ∷ ls) text =
    let rest = legacy ls text in if same text old then some new else rest

unfoldable pub replace_all : List (Chars × Chars) → Chars → Chars
unfolding replace
replace_all [] out = out
replace_all ((old, new) ∷ ls) out = replace_all ls (replace old new out)

-- What is done with a text that is no legacy label as a whole.
unfoldable pub rewrite : Chars → Chars
unfolding replace_all
rewrite text =
    replace em_dash (codes "-")
      (replace (codes " — ") (codes ", ") (replace_all legacy_labels text))

-- `sanitize_label`, at a text
unfoldable pub sanitize_label : Chars → Chars
unfolding legacy rewrite
sanitize_label text =
    if not (contains em_dash text)
    then text
    else elim (legacy legacy_labels text) [ none ↦ rewrite text | some new ↦ new ]

-- A JSON value; tuples are lists.
mutual
  pub data Json : Type 0 where
    text : Chars → Json
    items : Items → Json
    dict : Entries → Json
    -- a number, a Boolean or null
    other : Json

  pub data Items : Type 0 where
    end : Items
    item : Json → Items → Items

  pub data Entries : Type 0 where
    no_entry : Entries
    entry : Chars → Json → Entries → Entries

-- `sanitize_tree`; entries whose keys become alike are both kept here, where the dict keeps the last.
unfoldable mutual
  pub sanitize_tree : Json → Json
  sanitize_tree (text t) = text (sanitize_label t)
  sanitize_tree (items xs) = items (sanitize_items xs)
  sanitize_tree (dict es) = dict (sanitize_entries es)
  sanitize_tree other = other

  pub sanitize_items : Items → Items
  sanitize_items end = end
  sanitize_items (item x xs) = item (sanitize_tree x) (sanitize_items xs)

  pub sanitize_entries : Entries → Entries
  sanitize_entries no_entry = no_entry
  sanitize_entries (entry k x es) = entry (sanitize_label k) (sanitize_tree x) (sanitize_entries es)

-- No em dash in any text of the value, keys included.
abbrev mutual
  pub IsClean : Json → Type 0
  IsClean (text t) = contains em_dash t ≡ false
  IsClean (items xs) = AreClean xs
  IsClean (dict es) = HasClean es
  IsClean other = Unit

  pub AreClean : Items → Type 0
  AreClean end = Unit
  AreClean (item x xs) = IsClean x × AreClean xs

  pub HasClean : Entries → Type 0
  HasClean no_entry = Unit
  HasClean (entry k x es) = (contains em_dash k ≡ false) × IsClean x × HasClean es

legacy-clean :
    (t : Chars) (new : Chars) → legacy legacy_labels t ≡ some new → contains em_dash new ≡ false
unfolding legacy
legacy-clean t new h = ground arith

rewrite-clean : (t : Chars) → contains em_dash (rewrite t) ≡ false
unfolding rewrite
rewrite-clean t =
    contains-replace_one 0x2014 (codes "-")
      (replace (codes " — ") (codes ", ") (replace_all legacy_labels t)) refl

-- `sanitize_label` leaves no em dash, and leaves a text that has none as it is.
pub sanitize_label-clean :
    (t : Chars)
    → (contains em_dash (sanitize_label t) ≡ false)
      × (contains em_dash t ≡ false → sanitize_label t ≡ t)
unfolding sanitize_label
sanitize_label-clean t = elim (Bool-cases (contains em_dash t)) [
  | inl dashed ↦ (rw dashed (chosen (legacy legacy_labels t) refl), λ h. cc)
  | inr plain ↦ (rw plain plain, λ h. rw plain)
]
  where
    chosen :
        (o : Option Chars)
        → legacy legacy_labels t ≡ o
        → contains em_dash (elim o as (λ _. Chars) [ none ↦ rewrite t | some new ↦ new ]) ≡ false
    chosen none e = rewrite-clean t
    chosen (some new) e = legacy-clean t new e

mutual
  unfolding sanitize_tree

  sanitize_tree_lem : (j : Json) → IsClean (sanitize_tree j)
  sanitize_tree_lem (text t) = (sanitize_label-clean t).0
  sanitize_tree_lem (items xs) = sanitize_items_lem xs
  sanitize_tree_lem (dict es) = sanitize_entries_lem es
  sanitize_tree_lem other = tt

  sanitize_items_lem : (xs : Items) → AreClean (sanitize_items xs)
  sanitize_items_lem end = tt
  sanitize_items_lem (item x xs) = (sanitize_tree_lem x, sanitize_items_lem xs)

  sanitize_entries_lem : (es : Entries) → HasClean (sanitize_entries es)
  sanitize_entries_lem no_entry = tt
  sanitize_entries_lem (entry k x es) =
      ((sanitize_label-clean k).0, sanitize_tree_lem x, sanitize_entries_lem es)

-- Every text of a sanitised JSON value, at any depth and among the keys, is free of em dashes.
pub sanitize_tree-IsClean : (j : Json) → IsClean (sanitize_tree j)
sanitize_tree-IsClean j = sanitize_tree_lem j
