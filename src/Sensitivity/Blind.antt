-- ===== src/Sensitivity/Blind.antt =====
-- Searches that look at the present value first, and so find nothing.
use ipointel.Base.{
  ℕ, ◌≡◌, refl, sym, inl, inr, Bool, true, false, Option, none, some, List, [], arith, All,
  All-append, All-take, Bool-cases, if◌then◌else◌, some_injective,
}
use ipointel.Runtime.{Runtime}
use ipointel.Runtime.Order.{nonzero, or_else}
use ipointel.Ipo.{Ipo}
use ipointel.Scoring.Confidence.{is_india}
use ipointel.Scoring.Score.{Settings}
use ipointel.Sensitivity.{
  Lever, final_price, qib_sub, underwriter_quality, market_regime, ofs_pct, cfo_m, Condition,
  set_field, rank_of, is_hit, bisect_better, report, price_up, qib_up, underwriter_up, regime_up,
  cash_up, price_down, qib_down, regime_down, ofs_down, at_price, upgrades, downgrades, analyze,
  or_middle, current_qib,
}

abbrev pub is_price : Lever → Bool
is_price final_price = true
is_price _ = false

-- the levers whose fall is looked for
abbrev pub is_falling : Lever → Bool
is_falling qib_sub = true
is_falling market_regime = true
is_falling _ = false

module _ (py : Runtime) (settings : Settings py.F) (now : ℕ) where
  open py use {F}

  not_hit : (want : Bool) (base : ℕ) → is_hit py settings now want base base ≡ false
  not_hit true base = ground arith
  not_hit false base = ground arith

  -- A search whose far end is the present value finds nothing: the rank there is the base rank.
  blind :
      (ipo : Ipo F) (lever : Lever) (lo v : F) (want : Bool)
      → set_field lever v ipo ≡ ipo
      → bisect_better py settings now ipo lever lo v (rank_of py settings now ipo) want ≡ none
  unfolding bisect_better
  blind ipo lever lo v want e = rw (e, not_hit want (rank_of py settings now ipo)) refl

  report-All :
      (test : Lever → Bool) (lever : Lever) (far : F → Bool) (found : Option F)
      → test lever ≡ false
      → All (λ (c : Condition F). test c.lever ≡ false) (report py settings now lever far found)
  unfolding report
  report-All test lever far none h = tt
  report-All test lever far (some t) h = elim (Bool-cases (far t)) [
    | inl e ↦ rw e (h, tt)
    | inr e ↦ rw e tt
  ]

  set_price : (ipo : Ipo F) (v : F) → ipo.final_price ≡ some v → set_field final_price v ipo ≡ ipo
  unfolding set_field
  set_price ipo v e i = record ipo { final_price = sym e i }

  set_qib : (ipo : Ipo F) (v : F) → ipo.qib_sub ≡ some v → set_field qib_sub v ipo ≡ ipo
  unfolding set_field
  set_qib ipo v e i = record ipo { qib_sub = sym e i }

  set_regime :
      (ipo : Ipo F) (v : F) → ipo.market_regime ≡ some v → set_field market_regime v ipo ≡ ipo
  unfolding set_field
  set_regime ipo v e i = record ipo { market_regime = sym e i }

  -- The present value, as `analyze` reads it, where it is set and not zero.
  price_there :
      (p high : Option F) (v : F) → p ≡ some v → nonzero py v ≡ true → or_else py p high ≡ some v
  price_there none high v e z = cc
  price_there (some x) high v e z = rw (some_injective x v e, z) refl

  qib_there :
      (q : Option F) (v : F) → q ≡ some v → nonzero py v ≡ true → current_qib py settings now q ≡ v
  qib_there none v e z = cc
  qib_there (some x) v e z = rw (some_injective x v e, z) refl

  regime_there : (m : Option F) (v : F) → m ≡ some v → or_middle py settings now m ≡ v
  regime_there none v e = cc
  regime_there (some x) v e = some_injective x v e

  module _ (ipo : Ipo F) where
    abbrev base : ℕ
    base = rank_of py settings now ipo

    price_up_none : (v : F) → ipo.final_price ≡ some v → price_up py settings now ipo base v ≡ []
    unfolding price_up report
    price_up_none v e = rw (blind ipo final_price _ v true (set_price ipo v e)) refl

    qib_down_none : (v : F) → ipo.qib_sub ≡ some v → qib_down py settings now ipo base v ≡ []
    unfolding qib_down report
    qib_down_none v e = rw (blind ipo qib_sub _ v false (set_qib ipo v e)) refl

    regime_down_none :
        (v : F) → ipo.market_regime ≡ some v → regime_down py settings now ipo base v ≡ []
    unfolding regime_down report
    regime_down_none v e = rw (blind ipo market_regime _ v false (set_regime ipo v e)) refl

    abbrev NotPrice : Condition F → Type 0
    NotPrice c = is_price c.lever ≡ false

    abbrev NotFalling : Condition F → Type 0
    NotFalling c = is_falling c.lever ≡ false

    at_price_none :
        (conditions : F → List (Condition F)) (o : Option F) (v : F)
        → o ≡ some v
        → conditions v ≡ []
        → at_price py settings now conditions o ≡ []
    at_price_none conditions none v e h = refl
    at_price_none conditions (some x) v e h = elim (Bool-cases (nonzero py x)) [
      | inl z ↦ rw (z, some_injective x v e) h
      | inr z ↦ rw z refl
    ]

    demand_up-NotPrice :
        (b : Bool) (q u : F)
        → All NotPrice (
            if b
            then qib_up py settings now ipo base q
            else underwriter_up py settings now ipo base u)
    unfolding qib_up underwriter_up
    demand_up-NotPrice true q u = report-All is_price qib_sub _ _ refl
    demand_up-NotPrice false q u = report-All is_price underwriter_quality _ _ refl

    regime_up-NotPrice : (m : F) → All NotPrice (regime_up py settings now ipo base m)
    unfolding regime_up
    regime_up-NotPrice m = report-All is_price market_regime _ _ refl

    cash_up-NotPrice : (c r : Option F) → All NotPrice (cash_up py settings now ipo base c r)
    unfolding cash_up
    cash_up-NotPrice none r = tt
    cash_up-NotPrice (some c) none = tt
    cash_up-NotPrice (some c) (some r) = elim (Bool-cases (nonzero py r)) [
      | inl z ↦ rw z (report-All is_price cfo_m _ _ refl)
      | inr z ↦ rw z tt
    ]

    price_down-NotFalling :
        (o : Option F)
        → All NotFalling (at_price py settings now (price_down py settings now ipo base) o)
    unfolding price_down
    price_down-NotFalling none = tt
    price_down-NotFalling (some x) = elim (Bool-cases (nonzero py x)) [
      | inl z ↦ rw z (report-All is_falling final_price _ _ refl)
      | inr z ↦ rw z tt
    ]

    ofs_down-NotFalling : (o : Option F) → All NotFalling (ofs_down py settings now ipo base o)
    unfolding ofs_down
    ofs_down-NotFalling none = tt
    ofs_down-NotFalling (some x) = report-All is_falling ofs_pct _ _ refl

    upgrades-NotPrice :
        (v : F)
        → ipo.final_price ≡ some v
        → nonzero py v ≡ true
        → All NotPrice (upgrades py settings now ipo base)
    unfolding upgrades
    upgrades-NotPrice v e z =
        rw
          (at_price_none (price_up py settings now ipo base) _ v
            (price_there _ ipo.price_high v e z) (price_up_none v e))
          (All-append NotPrice _ _ (demand_up-NotPrice (is_india py ipo) _ _) (
            All-append NotPrice _ _ (regime_up-NotPrice _)
              (cash_up-NotPrice ipo.cfo_m ipo.revenue_m)))

    qib_down_gone :
        (v : F)
        → ipo.qib_sub ≡ some v
        → nonzero py v ≡ true
        → (if is_india py ipo
            then qib_down py settings now ipo base (current_qib py settings now ipo.qib_sub)
            else [])
          ≡ []
    qib_down_gone v e z = elim (Bool-cases (is_india py ipo)) [
      | inl i ↦ rw (i, qib_there ipo.qib_sub v e z) (qib_down_none v e)
      | inr i ↦ rw i refl
    ]

    downgrades-NotFalling :
        (v m : F)
        → ipo.qib_sub ≡ some v
        → nonzero py v ≡ true
        → ipo.market_regime ≡ some m
        → All NotFalling (downgrades py settings now ipo base)
    unfolding downgrades
    downgrades-NotFalling v m e z r =
        rw (qib_down_gone v e z, regime_there ipo.market_regime m r, regime_down_none m r)
          (All-append NotFalling _ _
            (price_down-NotFalling (or_else py ipo.final_price ipo.price_high))
            (ofs_down-NotFalling ipo.ofs_pct))

    -- For an issue with a price and an institutional subscription that are not zero, and a market
    -- regime, on record: no lower price is ever among the upgrade conditions, and neither a lower
    -- subscription nor a worse market regime is ever among the downgrade conditions. The searches for
    -- these compare the present recommendation with itself.
    pub analyze_blind :
        (price qib regime : F)
        → ipo.final_price ≡ some price
        → nonzero py price ≡ true
        → ipo.qib_sub ≡ some qib
        → nonzero py qib ≡ true
        → ipo.market_regime ≡ some regime
        → All
            (λ (c : Condition F). is_price c.lever ≡ false)
            (analyze py settings now ipo).upgrade_conditions
          × All
              (λ (c : Condition F). is_falling c.lever ≡ false)
              (analyze py settings now ipo).downgrade_conditions
    unfolding analyze
    analyze_blind price qib regime p pz q qz r = (
      All-take NotPrice 5 _ (upgrades-NotPrice price p pz),
      All-take NotFalling 5 _ (downgrades-NotFalling qib regime q qz r),
    )
