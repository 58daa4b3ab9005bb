-- ===== src/Pipeline/NameIndex.antt =====
-- `NameIndex` of app/services/pipeline.py by issuer name: which stored row a report resolves to. Names
-- are canonical already; the index by ISIN is left out.
use ipointel.Base.{Bool, not, ◌&&◌, Option, none, some, List, [], ◌∷◌, leb, is_empty, if◌then◌else◌}
use ipointel.Base.Text.{Chars, same}
use ipointel.Ipo.{Ipo}

module _ {F : Type 0} where
  abbrev pub has_symbol : Ipo F → Bool
  has_symbol ipo = not (is_empty ipo.symbol)

  -- `_better`: the row with a symbol, else the lower id
  unfoldable pub better : Ipo F → Ipo F → Ipo F
  better a b =
      if has_symbol a && not (has_symbol b)
      then a
      else if has_symbol b && not (has_symbol a)
      then b
      else if leb a.id b.id
      then a
      else b

  unfoldable pub find_name : Chars → List (Chars × Ipo F) → Option (Ipo F)
  find_name name [] = none
  find_name name ((n, ipo) ∷ index) =
      let rest = find_name name index in if same n name then some ipo else rest

  -- the names of `add`, at a canonical name that is not empty
  unfoldable pub add_name : Chars → Ipo F → List (Chars × Ipo F) → List (Chars × Ipo F)
  add_name [] ipo index = index
  add_name (c ∷ name) ipo [] = (c ∷ name, ipo) ∷ []
  add_name (c ∷ name) ipo ((n, cur) ∷ index) =
      let rest = add_name (c ∷ name) ipo index in
      if same n (c ∷ name) then (n, better cur ipo) ∷ index else (n, cur) ∷ rest
