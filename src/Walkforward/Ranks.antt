-- ===== src/Walkforward/Ranks.antt =====
-- Average ranks: `rank` inside `_spearman`, and the same loop of `_rank_auc` in model_eval.py.
use ipointel.Base.{ℕ, ◌+◌, List, [], ◌∷◌, ◌++◌, map, ◌==◌, if◌then◌else◌, sort_by}
use ipointel.Runtime.{Runtime}
use ipointel.Runtime.Order.{num, eq}

-- each value with its index
abbrev pub indexed {ℓ} : {A : Type ℓ} → ℕ → List A → List (ℕ × A)
indexed i [] = []
indexed i (x ∷ xs) = (i, x) ∷ indexed (i + 1) xs

module _ (py : Runtime) where
  open py use {F, dec, add, div, leb}

  -- Every index of the run gets the rank `(i + j) / 2 + 1`.
  abbrev pub assign : ℕ → ℕ → List ℕ → List (ℕ × F)
  assign i j run = map (λ k. (k, add (div (num py (i + j)) (num py 2)) (num py 1))) run

  -- The outer loop over the ordered indices: `run` holds those from place `i` to `j`, all at the value v.
  unfoldable pub ranks_from : ℕ → ℕ → F → List ℕ → List (ℕ × F) → List (ℕ × F)
  ranks_from i j v run [] = assign i j run
  ranks_from i j v run ((k, x) ∷ order) =
      let same = ranks_from i (j + 1) v (run ++ k ∷ []) order in
      let other = assign i j run ++ ranks_from (j + 1) (j + 1) x (k ∷ []) order in
      if eq py x v then same else other

  unfoldable pub rank_pairs : List (ℕ × F) → List (ℕ × F)
  unfolding ranks_from
  rank_pairs [] = []
  rank_pairs ((k, x) ∷ order) = ranks_from 0 0 x (k ∷ []) order

  -- `ranks[k]`; every index has a rank.
  unfoldable pub rank_at : ℕ → List (ℕ × F) → F
  rank_at k [] = num py 0
  rank_at k ((i, r) ∷ rs) = let rest = rank_at k rs in if i == k then r else rest

  unfoldable pub ranks : List F → List F
  unfolding rank_pairs rank_at
  ranks vals =
      let ranked = rank_pairs (sort_by (λ a b. leb a.1 b.1) (indexed 0 vals)) in
      map (λ p. rank_at p.0 ranked) (indexed 0 vals)
