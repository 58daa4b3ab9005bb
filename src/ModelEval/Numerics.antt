-- ===== src/ModelEval/Numerics.antt =====
-- The numerics of app/services/model_eval.py: `_standardize`, `_solve`, `fit_logistic` and `predict`.
-- A row of features is a function from the columns' readers; the square root is a parameter.
use ipointel.Base.{
  ℕ, zero, suc, ◌+◌, ◌-◌, Bool, true, not, ◌||◌, Option, none, some, List, [], ◌∷◌, ◌++◌, map, ltb,
  ◌==◌, if◌then◌else◌, is_some, length, filter, any, zip_with,
}
use ipointel.Runtime.{Runtime}
use ipointel.Runtime.Order.{num, lt, eq, minimum, maximum, nonzero}
use ipointel.Walkforward.{sum, neg, square}

module _ (py : Runtime) (sqrt : py.F → py.F) where
  open py use {F, dec, add, sub, mul, div, exp, mean}

  -- A column that is kept, with its mean and deviation, and whether a value is missing anywhere.
  pub record Column (R : Type 0) : Type 0 where
    pub get : R → Option F
    pub centre : F
    pub spread : F
    pub has_missing : Bool

  abbrev pub known : {R : Type 0} → (R → Option F) → List R → List F
  known get [] = []
  known get (r ∷ rows) =
      let rest = known get rows in elim (get r) [ none ↦ rest | some v ↦ v ∷ rest ]

  -- `len(set(vals)) < 2`
  abbrev pub is_constant : List F → Bool
  is_constant [] = true
  is_constant (v ∷ vals) = not (any (λ x. not (eq py x v)) vals)

  -- `x or 1.0`
  abbrev pub or_one : F → F
  or_one x = if nonzero py x then x else num py 1

  abbrev pub deviation : F → List F → F
  deviation m vals =
      sqrt (div (sum py (map (λ v. square py (sub v m)) vals)) (num py (length vals)))

  unfoldable pub column_of : {R : Type 0} → List R → List R → (R → Option F) → List (Column R)
  column_of train test get =
      let vals = known get train in
      let m = mean vals in
      if ltb (length vals) 5 || is_constant vals
      then []
      else record {
        get = get;
        centre = m;
        spread = or_one (deviation m vals);
        has_missing = any (λ r. not (is_some (get r))) (train ++ test);
      }
        ∷ []

  unfoldable pub columns : {R : Type 0} → List R → List R → List (R → Option F) → List (Column R)
  unfolding column_of
  columns train test [] = []
  columns train test (get ∷ names) = column_of train test get ++ columns train test names

  abbrev pub scaled : {R : Type 0} → R → Column R → F
  scaled r c = elim (c.get r) [ none ↦ num py 0 | some v ↦ div (sub v c.centre) c.spread ]

  abbrev pub missing_flag : {R : Type 0} → R → Column R → F
  missing_flag r c = if is_some (c.get r) then num py 0 else num py 1

  -- `enc`
  unfoldable pub encode : {R : Type 0} → List (Column R) → R → List F
  encode cols r =
      num py 1 ∷ (map (scaled r) cols ++ map (missing_flag r) (filter (λ c. c.has_missing) cols))

  -- `_standardize`, with the number of design columns
  unfoldable pub standardize :
      {R : Type 0} → List R → List R → List (R → Option F) → List (List F) × List (List F) × ℕ
  unfolding columns encode
  standardize train test names =
      let cols = columns train test names in
      (
        map (encode cols) train,
        map (encode cols) test,
        length cols + length (filter (λ c. c.has_missing) cols),
      )

  -- `v[i]`, and `m[r][c]`; the indices are in range.
  abbrev pub item : List F → ℕ → F
  item [] i = num py 0
  item (x ∷ xs) zero = x
  item (x ∷ xs) (suc i) = item xs i

  abbrev pub line : List (List F) → ℕ → List F
  line [] r = []
  line (v ∷ m) zero = v
  line (v ∷ m) (suc r) = line m r

  abbrev pub entry : List (List F) → ℕ → ℕ → F
  entry m r c = item (line m r) c

  abbrev pub set_item : {A : Type 0} → List A → ℕ → A → List A
  set_item [] i v = []
  set_item (x ∷ xs) zero v = v ∷ xs
  set_item (x ∷ xs) (suc i) v = x ∷ set_item xs i v

  abbrev pub magnitude : F → F
  magnitude x = if lt py x (num py 0) then neg py x else x

  -- `max(range(c, n), key=lambda r: abs(m[r][c]))`, with `left` rows still to compare from row r on
  unfoldable pub pivot : List (List F) → ℕ → ℕ → ℕ → ℕ → ℕ
  pivot m c best r zero = best
  pivot m c best r (suc left) =
      pivot m c (if lt py (magnitude (entry m best c)) (magnitude (entry m r c)) then r else best)
        (r + 1) left

  abbrev pub swap : List (List F) → ℕ → ℕ → List (List F)
  swap m c p = set_item (set_item m c (line m p)) p (line m c)

  -- `if abs(m[c][c]) < 1e-12: m[c][c] = 1e-12`
  abbrev pub guarded : List F → ℕ → List F
  guarded v c = if lt py (magnitude (item v c)) (dec 1 12) then set_item v c (dec 1 12) else v

  -- The rows from number r on with column c cleared by the pivot's row.
  unfoldable pub clear : List F → ℕ → ℕ → List (List F) → List (List F)
  clear top c r [] = []
  clear top c r (v ∷ rows) =
      let f = div (item v c) (item top c) in
      (if r == c then v else if nonzero py f then zip_with (λ x y. sub x (mul f y)) v top else v)
      ∷ clear top c (r + 1) rows

  unfoldable pub eliminate : ℕ → List (List F) → ℕ → List (List F)
  unfolding pivot clear
  eliminate n m c =
      let swapped = swap m c (pivot m c c (c + 1) (n - (c + 1))) in
      let top = guarded (line swapped c) c in clear top c 0 (set_item swapped c top)

  unfoldable pub eliminate_all : ℕ → ℕ → ℕ → List (List F) → List (List F)
  unfolding eliminate
  eliminate_all n c zero m = m
  eliminate_all n c (suc left) m = eliminate_all n (c + 1) left (eliminate n m c)

  abbrev pub solution : ℕ → ℕ → List (List F) → List F
  solution n i [] = []
  solution n i (v ∷ m) = div (item v n) (item v i) ∷ solution n (i + 1) m

  -- `_solve`
  unfoldable pub solve : List (List F) → List F → List F
  unfolding eliminate_all
  solve a b =
      let n = length b in solution n 0 (eliminate_all n 0 n (zip_with (λ row x. row ++ x ∷ []) a b))

  abbrev pub dot : List F → List F → F
  dot a b = sum py (zip_with mul a b)

  -- `1 / (1 + math.exp(-max(-30, min(30, z))))`, over the numerator of the caller
  unfoldable pub logistic : F → F → F
  logistic top z =
      div top
        (add (num py 1) (exp (neg py (maximum py (neg py (num py 30)) (minimum py (num py 30) z)))))

  abbrev pub zeros : List F → List F
  zeros v = map (λ _. num py 0) v

  -- The gradient and the Hessian with one row added.
  abbrev pub add_row : List F → List F × List (List F) → List F → F → List F × List (List F)
  add_row w (g, h) xi yi =
      let p = logistic (num py 1) (dot w xi) in
      let r = sub p yi in
      let s = mul p (sub (num py 1) p) in
      (
        zip_with (λ gj xj. add gj (mul r xj)) g xi,
        zip_with (λ hj xj. zip_with (λ hjk xk. add hjk (mul (mul s xj) xk)) hj xi) h xi,
      )

  unfoldable pub accumulate :
      List F → List F × List (List F) → List (List F) → List F → List F × List (List F)
  unfolding logistic
  accumulate w gh (xi ∷ x) (yi ∷ y) = accumulate w (add_row w gh xi yi) x y
  accumulate w gh _ _ = gh

  -- `h[j][j] += l2` from row j on
  abbrev pub penalised : F → ℕ → List (List F) → List (List F)
  penalised l2 j [] = []
  penalised l2 j (v ∷ h) = set_item v j (add (item v j) l2) ∷ penalised l2 (j + 1) h

  -- The penalty, which spares the intercept.
  abbrev pub regularise : F → List F → List F × List (List F) → List F × List (List F)
  regularise l2 (w0 ∷ w) (g0 ∷ g, h0 ∷ h) =
      (g0 ∷ zip_with (λ gj wj. add gj (mul l2 wj)) g w, h0 ∷ penalised l2 1 h)
  regularise l2 _ gh = gh

  -- `max(abs(s) for s in step) < 1e-6`
  abbrev pub is_settled : List F → Bool
  is_settled step = not (any (λ s. not (lt py (magnitude s) (dec 1 6))) step)

  -- `iters` rounds of Newton's method, or fewer once the step is small
  unfoldable pub newton : F → ℕ → List (List F) → List F → List F → List F
  unfolding accumulate solve
  newton l2 zero x y w = w
  newton l2 (suc iters) x y w =
      let (g, h) = regularise l2 w (accumulate w (zeros w, map (λ _. zeros w) w) x y) in
      let step = solve h g in
      let w' = zip_with sub w step in
      let rest = newton l2 iters x y w' in if is_settled step then w' else rest

  -- `fit_logistic` with its default penalty and rounds
  unfoldable pub fit_logistic : List (List F) → List F → List F
  unfolding newton
  fit_logistic [] y = []
  fit_logistic (x0 ∷ x) y = newton (num py 1) 25 (x0 ∷ x) y (zeros x0)

  unfoldable pub predict : List F → List (List F) → List F
  unfolding logistic
  predict w x = map (λ xi. logistic (num py 100) (dot w xi)) x
