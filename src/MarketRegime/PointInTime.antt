-- ===== src/MarketRegime/PointInTime.antt =====
-- The regime of a listing is a matter of the closes before it.
use ipointel.Base.{ℕ, ◌≡◌, refl, ap, ◌∙◌, Option, none, some, List, [], ◌∷◌, ◌++◌, arith, All, ◌≤◌}
use ipointel.Runtime.{Runtime}
use ipointel.MarketRegime.{Bar, Close, keep_prior, prior_to, regime_at}

module _ (py : Runtime) (log sqrt : py.F → py.F) where
  open py use {F}

  keep_prior_late :
      (cutoff ts : ℕ) (close : Option F) (rest : List (Close F))
      → cutoff ≤ ts
      → keep_prior py log sqrt cutoff ts close rest ≡ rest
  unfolding keep_prior
  keep_prior_late cutoff ts none rest h = refl
  keep_prior_late cutoff ts (some c) rest h = ground arith

  later_bars :
      (cutoff : ℕ) (before late after : List (Bar F))
      → All (λ b. cutoff ≤ b.ts) late
      → prior_to py log sqrt cutoff (before ++ (late ++ after))
        ≡ prior_to py log sqrt cutoff (before ++ after)
  unfolding prior_to
  later_bars cutoff [] [] after h = refl
  later_bars cutoff [] (b ∷ late) after h =
      keep_prior_late cutoff b.ts b.close (prior_to py log sqrt cutoff (late ++ after)) h.0
      ∙ later_bars cutoff [] late after h.1
  later_bars cutoff (b ∷ before) late after h =
      ap (keep_prior py log sqrt cutoff b.ts b.close) (later_bars cutoff before late after h)

  -- The regime at a listing does not change with bars of the day of the listing or later, wherever they
  -- stand in the history and whatever they say.
  pub regime_at-late :
      (cutoff : ℕ) (before late after : List (Bar F))
      → All (λ b. cutoff ≤ b.ts) late
      → regime_at py log sqrt (before ++ (late ++ after)) (some cutoff)
        ≡ regime_at py log sqrt (before ++ after) (some cutoff)
  unfolding regime_at
  regime_at-late cutoff before late after h = rw (later_bars cutoff before late after h) refl
