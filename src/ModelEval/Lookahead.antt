-- ===== src/ModelEval/Lookahead.antt =====
-- No look ahead in the walk-forward: what happened later does not change an earlier fold.
use ipointel.Base.{
  ℕ, ◌≤◌, ◌<◌, ◌≡◌, refl, inl, inr, Bool, true, false, Option, List, [], ◌∷◌, map, arith, ltb, leb,
  ◌==◌, if◌then◌else◌, is_some, filter, filter-filter, All, Bool-cases, leb→le,
}
use ipointel.Runtime.{Runtime}
use ipointel.ModelEval.{Target, Row, Features}
use ipointel.ModelEval.WalkForward.{
  year_of, label_of, add_year, years_of, Outcome, skipped, fitted, fold_at, outcomes,
}

-- The rows of listings up to the year `last`.
abbrev pub up_to : {F : Type 0} → ℕ → List (Row F) → List (Row F)
up_to last rows = filter (λ r. leb (year_of r) last) rows

filter_comm :
    {A : Type 0} (p q : A → Bool) (xs : List A) → filter p (filter q xs) ≡ filter q (filter p xs)
filter_comm p q [] = refl
filter_comm p q (x ∷ xs) = ground (arith, filter_comm p q xs)

-- Each year comes before the later ones.
abbrev IsSorted : List ℕ → Type 0
IsSorted [] = Unit
IsSorted (x ∷ xs) = All (λ y. x < y) xs × IsSorted xs

above_add : (x y : ℕ) (ys : List ℕ) → x < y → All (λ z. x < z) ys → All (λ z. x < z) (add_year y ys)
unfolding add_year
above_add x y [] h k = (h, tt)
above_add x y (z ∷ zs) h k = ground (arith, above_add x y zs)

above_all : (x y : ℕ) (ys : List ℕ) → x < y → All (λ z. y < z) ys → All (λ z. x < z) ys
above_all x y [] h k = tt
above_all x y (z ∷ zs) h k = (omega arith, above_all x y zs h k.1)

add_year-IsSorted : (y : ℕ) (ys : List ℕ) → IsSorted ys → IsSorted (add_year y ys)
unfolding add_year
add_year-IsSorted y [] s = (tt, tt)
add_year-IsSorted y (x ∷ xs) s =
    ground (arith, above_add x y xs, above_all y x xs, add_year-IsSorted y xs)

years_of-IsSorted : {F : Type 0} (rows : List (Row F)) → IsSorted (years_of rows)
unfolding years_of
years_of-IsSorted [] = tt
years_of-IsSorted (r ∷ rows) =
    add_year-IsSorted (year_of r) (years_of rows) (years_of-IsSorted rows)

none_up_to :
    (last x : ℕ) (xs : List ℕ) → last < x → All (λ y. x < y) xs → filter (λ y. leb y last) xs ≡ []
none_up_to last x [] h k = refl
none_up_to last x (y ∷ ys) h k = ground (arith, none_up_to last x ys)

filter-add_year :
    (last y : ℕ) (ys : List ℕ)
    → IsSorted ys
    → filter (λ z. leb z last) (add_year y ys) ≡ (
        if leb y last
        then add_year y (filter (λ z. leb z last) ys)
        else filter (λ z. leb z last) ys)
unfolding add_year
filter-add_year last y [] s = ground arith
filter-add_year last y (x ∷ xs) s = ground (arith, filter-add_year last y xs, none_up_to last x xs)

years_of-up_to :
    {F : Type 0} (last : ℕ) (rows : List (Row F))
    → years_of (up_to last rows) ≡ filter (λ y. leb y last) (years_of rows)
unfolding years_of
years_of-up_to last [] = refl
years_of-up_to last (r ∷ rows) = ground (
  arith,
  years_of-up_to last rows,
  filter-add_year last (year_of r) (years_of rows) (years_of-IsSorted rows),
)

module _ (py : Runtime) (sqrt : py.F → py.F) (names : List (Features py.F → Option py.F))
    (target : Target) (min_train : ℕ) where
  open py use {F}

  abbrev at : List (Row F) → ℕ → Outcome F
  at = fold_at py sqrt names target min_train

  fold_at-up_to :
      (last yr : ℕ) (usable : List (Row F)) → yr ≤ last → at (up_to last usable) yr ≡ at usable yr
  unfolding fold_at
  fold_at-up_to last yr usable h =
      rw
        (
          filter-filter (λ (r : Row F). ltb (year_of r) yr) (λ (r : Row F). leb (year_of r) last)
              usable (λ r e. ground arith),
          filter-filter (λ (r : Row F). year_of r == yr) (λ (r : Row F). leb (year_of r) last)
              usable (λ r e. ground arith),
        )
        refl

  year_of_either :
      (yr : ℕ) (b : Bool) (x y : Outcome F)
      → x.fold.year ≡ yr
      → y.fold.year ≡ yr
      → (if b then x else y).fold.year ≡ yr
  year_of_either yr true x y h k = h
  year_of_either yr false x y h k = k

  skipped-year :
      (yr : ℕ) (train test : List (Row F))
      → (skipped py sqrt names target min_train yr train test).fold.year ≡ yr
  unfolding skipped
  skipped-year yr train test = refl

  fitted-year :
      (yr : ℕ) (train test : List (Row F))
      → (fitted py sqrt names target min_train yr train test).fold.year ≡ yr
  unfolding fitted
  fitted-year yr train test = refl

  fold_at-year : (usable : List (Row F)) (yr : ℕ) → (at usable yr).fold.year ≡ yr
  unfolding fold_at
  fold_at-year usable yr =
      let train : List (Row F) = filter (λ r. ltb (year_of r) yr) usable in
      let test : List (Row F) = filter (λ r. year_of r == yr) usable in
      year_of_either yr _ _ _ (skipped-year yr train test) (fitted-year yr train test)

  folds_up_to :
      (last : ℕ) (usable : List (Row F)) (years : List ℕ)
      → map (at (up_to last usable)) (filter (λ y. leb y last) years)
        ≡ filter (λ o. leb o.fold.year last) (map (at usable) years)
  folds_up_to last usable [] = refl
  folds_up_to last usable (y ∷ years) = elim (Bool-cases (leb y last)) [
    | inl e ↦
        rw (e, tested y e)
          (rw (fold_at-up_to last y usable (leb→le y last e), folds_up_to last usable years) refl)
    | inr e ↦ rw (e, tested y e) (folds_up_to last usable years)
  ]
    where
      tested : (y : ℕ) {b : Bool} → leb y last ≡ b → leb (at usable y).fold.year last ≡ b
      tested y e = rw (fold_at-year usable y) e

  -- For every year: the folds up to it, with their models, their predictions, the baselines and the
  -- scores, are those of the rows listed up to it. No row of a later year changes them.
  pub outcomes-up_to :
      (last : ℕ) (rows : List (Row F))
      → outcomes py sqrt names target min_train (up_to last rows)
        ≡ filter (λ o. leb o.fold.year last) (outcomes py sqrt names target min_train rows)
  unfolding outcomes
  outcomes-up_to last rows =
      let usable : List (Row F) = filter (λ r. is_some (label_of target r)) rows in
      rw
        (
          filter_comm (λ (r : Row F). is_some (label_of target r))
              (λ (r : Row F). leb (year_of r) last) rows,
          years_of-up_to last usable,
        )
        (folds_up_to last usable (years_of usable))
