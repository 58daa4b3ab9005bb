-- ===== src/Walkforward/Bands.antt =====
-- `_band_breakdown` and `_by_year`: how returns fall into bands of scores, and into listing years.
use ipointel.Base.{
  ℕ, ◌+◌, ◌≤◌, ◌≡◌, refl, ◌∙◌, String, Bool, true, false, not, ◌&&◌, Option, none, some, List, [],
  ◌∷◌, map, arith, if◌then◌else◌, is_some, length, filter, All,
}
use ipointel.Runtime.{Runtime, RuntimeLaws}
use ipointel.Runtime.Order.{num, lt}

-- A row of `_collect`, for the one score and the one return that a model block reads.
pub record Row (F : Type 0) : Type 0 where
  pub score : F
  pub prob : F
  pub return_pct : Option F

pub record Band : Type 0 where
  pub low : ℕ
  pub high : ℕ
  pub label : String

abbrev pub bands : List Band
bands =
    record { low = 90; high = 101; label = "90-100" }
    ∷ record { low = 80; high = 90; label = "80-89" }
    ∷ record { low = 70; high = 80; label = "70-79" }
    ∷ record { low = 60; high = 70; label = "60-69" }
    ∷ record { low = 50; high = 60; label = "50-59" }
    ∷ record { low = 0; high = 50; label = "<50" }
    ∷ []

module _ (py : Runtime) (median : List py.F → py.F) where
  open py use {F, leb, mul, div, sub, round, mean}

  pub record Breakdown : Type 0 where
    pub band : String
    pub n : ℕ
    pub positive_pct : Option F
    pub mean_return_pct : Option F
    pub median_return_pct : Option F
    pub gt10pct_pct : Option F
    pub gt20pct_pct : Option F
    pub loss_pct : Option F

  abbrev pub in_band : Band → Row F → Bool
  in_band b r =
      leb (num py b.low) r.score && (lt py r.score (num py b.high) && is_some r.return_pct)

  abbrev pub returns : List (Row F) → List F
  returns [] = []
  returns (r ∷ rows) =
      let rest = returns rows in elim r.return_pct [ none ↦ rest | some x ↦ x ∷ rest ]

  -- `round(sum(1 for x in rets if test(x)) / len(rets) * 100, 1)`
  abbrev pub share : (F → Bool) → List F → F
  share test rets =
      round (mul (div (num py (length (filter test rets))) (num py (length rets))) (num py 100)) 1

  unfoldable pub breakdown_of : String → List (Row F) → Breakdown
  breakdown_of label [] = record {
    band = label;
    n = 0;
    positive_pct = none;
    mean_return_pct = none;
    median_return_pct = none;
    gt10pct_pct = none;
    gt20pct_pct = none;
    loss_pct = none;
  }
  breakdown_of label (r ∷ chunk) =
      let rets = returns (r ∷ chunk) in
      record {
        band = label;
        n = length (r ∷ chunk);
        positive_pct = some (share (λ x. lt py (num py 0) x) rets);
        mean_return_pct = some (round (mean rets) 1);
        median_return_pct = some (round (median rets) 1);
        gt10pct_pct = some (share (λ x. lt py (num py 10) x) rets);
        gt20pct_pct = some (share (λ x. lt py (num py 20) x) rets);
        loss_pct = some (share (λ x. lt py x (num py 0)) rets);
      }

  unfoldable pub band_breakdown : List (Row F) → List Breakdown
  unfolding breakdown_of
  band_breakdown rows = map (λ b. breakdown_of b.label (filter (in_band b) rows)) bands

  abbrev pub total : List Breakdown → ℕ
  total [] = 0
  total (b ∷ bs) = b.n + total bs

abbrev bit : Bool → ℕ
bit b = if b then 1 else 0

length-filter-cons {ℓ} :
    {A : Type ℓ} (p : A → Bool) (x : A) (xs : List A)
    → length (filter p (x ∷ xs)) ≡ bit (p x) + length (filter p xs)
length-filter-cons p x xs = ground arith

-- Of six half-open ranges that follow each other, a point of their union lies in exactly one.
exactly_one :
    (b0 b50 b60 b70 b80 b90 b101 t : Bool)
    → b101 ≡ false
    → b0 ≡ true
    → (b90 ≡ true → b80 ≡ true)
    → (b80 ≡ true → b70 ≡ true)
    → (b70 ≡ true → b60 ≡ true)
    → (b60 ≡ true → b50 ≡ true)
    → bit (b90 && (not b101 && t))
        + bit (b80 && (not b90 && t))
        + bit (b70 && (not b80 && t))
        + bit (b60 && (not b70 && t))
        + bit (b50 && (not b60 && t))
        + bit (b0 && (not b50 && t))
      ≡ bit t
exactly_one b0 b50 b60 b70 b80 b90 b101 t high low k3 k2 k1 k0 = ground arith

module _ (py : Runtime) (laws : RuntimeLaws py) (median : List py.F → py.F) where
  open py use {F, leb}

  -- A score is at least 0 and below 101.
  abbrev pub IsScored : Row F → Type 0
  IsScored r = (leb (num py 101) r.score ≡ false) × (leb (num py 0) r.score ≡ true)

  breakdown_of-length :
      (label : String) (chunk : List (Row F))
      → (breakdown_of py median label chunk).n ≡ length chunk
  unfolding breakdown_of
  breakdown_of-length label [] = refl
  breakdown_of-length label (r ∷ chunk) = refl

  below : (m n : ℕ) (x : F) → m ≤ n → leb (num py n) x ≡ true → leb (num py m) x ≡ true
  below m n x h k = laws.le_trans _ _ _ (laws.dec_mono m n 0 h) k

  -- how many bands a row is in
  abbrev hits : List Band → Row F → ℕ
  hits [] r = 0
  hits (b ∷ bs) r = bit (in_band py median b r) + hits bs r

  one_band : (r : Row F) → IsScored r → hits bands r ≡ bit (is_some r.return_pct)
  one_band r h = omega (
    arith,
    exactly_one _ _ _ _ _ _ _ _ h.0 h.1 (below 80 90 _ (omega arith)) (below 70 80 _ (omega arith))
        (below 60 70 _ (omega arith)) (below 50 60 _ (omega arith)),
  )

  abbrev size : Band → List (Row F) → ℕ
  size b rows = length (filter (in_band py median b) rows)

  -- the sum of the sizes of the bands
  abbrev sizes : List Band → List (Row F) → ℕ
  sizes [] rows = 0
  sizes (b ∷ bs) rows = size b rows + sizes bs rows

  total-map :
      (rows : List (Row F)) (bs : List Band)
      → total py median
          (map (λ b. breakdown_of py median b.label (filter (in_band py median b) rows)) bs)
        ≡ sizes bs rows
  total-map rows [] = refl
  total-map rows (b ∷ bs) =
      omega
        (arith, total-map rows bs, breakdown_of-length b.label (filter (in_band py median b) rows))

  sizes-cons :
      (bs : List Band) (r : Row F) (rows : List (Row F))
      → sizes bs (r ∷ rows) ≡ hits bs r + sizes bs rows
  sizes-cons [] r rows = refl
  sizes-cons (b ∷ bs) r rows =
      omega (arith, sizes-cons bs r rows, length-filter-cons (in_band py median b) r rows)

  sizes_all :
      (rows : List (Row F))
      → All IsScored rows
      → sizes bands rows ≡ length (filter (λ r. is_some r.return_pct) rows)
  sizes_all [] h = refl
  sizes_all (r ∷ rows) h = omega (
    arith,
    sizes-cons bands r rows,
    sizes_all rows h.1,
    one_band r h.0,
    length-filter-cons (λ (x : Row F). is_some x.return_pct) r rows,
  )

  -- If every score is at least 0 and below 101, then every row with a return is counted in exactly one
  -- band: the sizes of the bands add up to the number of rows with a return.
  pub band_breakdown-total :
      (rows : List (Row F))
      → All IsScored rows
      → total py median (band_breakdown py median rows)
        ≡ length (filter (λ r. is_some r.return_pct) rows)
  unfolding band_breakdown
  band_breakdown-total rows h = total-map rows bands ∙ sizes_all rows h
