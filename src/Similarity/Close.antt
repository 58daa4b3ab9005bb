-- ===== src/Similarity/Close.antt =====
-- What every match is: another issue, comparable in two features at least, and near enough.
use ipointel.Base.{
  ℕ, ◌≤◌, ◌≡◌, refl, inl, inr, Bool, true, false, not, Option, List, [], ◌∷◌, map, arith, ltb, ◌==◌,
  if◌then◌else◌, length, filter, take, length-take, All, All-append, All-take, filter_holds,
  sort_by, sort_by-All, Bool-cases,
}
use ipointel.Runtime.{Runtime, RuntimeLaws}
use ipointel.Runtime.Order.{num}
use ipointel.Ipo.{Ipo}
use ipointel.Similarity.{
  Feature, Scored, Match, score_one, score_all, key_le, match_of, find_similar, usable_features,
}

module _ (py : Runtime) (pstdev : List py.F → py.F) (sqrt : py.F → py.F) where
  open py use {F}

  pub record IsNear (target : Ipo F) (s : Scored py pstdev sqrt) : Type 0 where
    pub is_other : (s.candidate.id == target.id) ≡ false
    pub is_comparable : 2 ≤ length s.dims
    pub is_close : py.leb s.adjusted (num py 2) ≡ true

  abbrev Entry : Type 0
  Entry = Scored py pstdev sqrt

  All_unless :
      (P : Entry → Type 0) (few far : Bool) (s : Entry)
      → (few ≡ false → far ≡ false → P s)
      → All P (if few then [] else if far then [] else s ∷ [])
  All_unless P true far s h = tt
  All_unless P false true s h = tt
  All_unless P false false s h = (h refl refl, tt)

  score_one-IsNear :
      (target : Ipo F) (rows : List (Ipo F)) (usable : List Feature) (c : Ipo F)
      → (c.id == target.id) ≡ false
      → All (IsNear target) (score_one py pstdev sqrt target rows usable c)
  unfolding score_one
  score_one-IsNear target rows usable c h =
      All_unless (IsNear target) _ _ _
        (λ few far. record { is_other = h; is_comparable = ground arith; is_close = ground arith })

  score_all-IsNear :
      (target : Ipo F) (rows : List (Ipo F)) (usable : List Feature) (cs : List (Ipo F))
      → All (λ c. not (c.id == target.id) ≡ true) cs
      → All (IsNear target) (score_all py pstdev sqrt target rows usable cs)
  unfolding score_all
  score_all-IsNear target rows usable [] h = tt
  score_all-IsNear target rows usable (c ∷ cs) h =
      All-append (IsNear target) _ _ (score_one-IsNear target rows usable c (ground (arith, h.0)))
        (score_all-IsNear target rows usable cs h.1)

  module _ (return_of : ℕ → Option F) where
    -- A match is another issue, with two features in common or more, at an adjusted distance of at
    -- most 2.
    pub record IsMatch (target : Ipo F) (m : Match py pstdev sqrt) : Type 0 where
      pub is_other : (m.ipo_id == target.id) ≡ false
      pub is_comparable : 2 ≤ length m.matched_on
      pub is_close : py.leb m.adjusted_distance (num py 2) ≡ true

    match_of-IsMatch :
        RuntimeLaws py
        → (target : Ipo F) (usable : List Feature) (s : Entry) → IsNear target s
        → IsMatch target (match_of py pstdev sqrt return_of usable s)
    unfolding match_of
    match_of-IsMatch laws target usable s h = record {
      is_other = h.is_other;
      is_comparable = h.is_comparable;
      is_close = rw (laws.round_whole 2 3) at (laws.round_mono s.adjusted (num py 2) 3 h.is_close);
    }

    All-match_of :
        RuntimeLaws py
        → (target : Ipo F) (usable : List Feature) (top : List Entry) → All (IsNear target) top
        → All (IsMatch target) (map (match_of py pstdev sqrt return_of usable) top)
    All-match_of laws target usable [] h = tt
    All-match_of laws target usable (s ∷ top) h =
        (match_of-IsMatch laws target usable s h.0, All-match_of laws target usable top h.1)

    length-map :
        (f : Entry → Match py pstdev sqrt) (xs : List Entry) → length (map f xs) ≡ length xs
    length-map f [] = refl
    length-map f (x ∷ xs) = omega (arith, length-map f xs)

    -- Whatever the candidates are: at most `k` matches are returned, and each is an issue other than the
    -- target, compared in two features or more, with an adjusted distance of at most 2.
    pub find_similar-IsMatch :
        RuntimeLaws py
        → (target : Ipo F) (k : ℕ) (candidates : List (Ipo F))
        → let found = find_similar py pstdev sqrt return_of target k candidates in
          (length found.matches ≤ k) × All (IsMatch target) found.matches
    unfolding find_similar
    find_similar-IsMatch laws target k candidates =
        let rows : List (Ipo F) = filter (λ c. not (c.id == target.id)) candidates in
        let usable : List Feature = usable_features py pstdev sqrt target rows in
        elim (Bool-cases (ltb (length usable) 2)) [
          | inl few ↦ rw few (omega arith, tt)
          | inr enough ↦ rw enough (
            omega (
              arith,
              length-map (match_of py pstdev sqrt return_of usable) (
                  take k (
                    sort_by (key_le py pstdev sqrt)
                      (score_all py pstdev sqrt target rows usable rows))),
              length-take {0} k (
                  sort_by (key_le py pstdev sqrt)
                    (score_all py pstdev sqrt target rows usable rows)),
            ),
            All-match_of laws target usable _ (
                All-take (IsNear target) k _ (
                  sort_by-All (IsNear target) (key_le py pstdev sqrt) _
                    (score_all-IsNear target rows usable rows (filter_holds _ candidates)))),
          )
        ]
