-- ===== src/Dcf.antt =====
-- app/services/dcf.py: the projection of an equity value, the three scenarios, and the growth rate
-- that a price implies, by bisection. `pow` stands for `**` of a float and an integer.
pub mod Bisection
mod Tests
use ipointel.Base.{
  ℕ, zero, suc, ◌+◌, Bool, true, false, not, ◌&&◌, ◌||◌, Option, none, some, List, [], ◌∷◌, is_some,
  if◌then◌else◌,
}
use ipointel.Runtime.{Runtime}
use ipointel.Runtime.Order.{num, lt, truthy, or_else, or_zero, minimum, maximum}
use ipointel.Ipo.{Ipo}
use ipointel.Scoring.Confidence.{is_india}

-- The horizon is always the default of five years.
pub record Assumptions (F : Type 0) : Type 0 where
  pub revenue_cagr : F
  pub margin_start : F
  pub margin_end : F
  pub wacc : F
  pub terminal_growth : F
  pub tax_rate : F
  pub capex_pct_revenue : F

abbrev pub years : ℕ
years = 5

module _ (py : Runtime) (pow : py.F → ℕ → py.F) where
  open py use {F, add, sub, mul, div, leb, dec}

  -- the free cash flow of a year, from its revenue
  unfoldable pub cash_flow : Assumptions F → ℕ → F → F
  cash_flow a y rev =
      let margin =
        add a.margin_start
          (mul (sub a.margin_end a.margin_start) (div (num py y) (num py years))) in
      let nopat = mul (mul (mul rev margin) (dec 82 2)) (sub (num py 1) a.tax_rate) in
      sub nopat (mul rev a.capex_pct_revenue)

  -- From a year on: the present value so far, the last cash flow, and the years that are left.
  unfoldable pub discounted : Assumptions F → ℕ → ℕ → F → F → F → F × F
  discounted a y zero rev pv last = (pv, last)
  discounted a y (suc n) rev pv last =
      let rev' = mul rev (add (num py 1) a.revenue_cagr) in
      let fcf = cash_flow a y rev' in
      discounted a (y + 1) n rev' (add pv (div fcf (pow (add (num py 1) a.wacc) y))) fcf

  -- `_project_equity_value`
  unfoldable pub project_equity_value : Option F → Assumptions F → Option F
  project_equity_value none a = none
  project_equity_value (some revenue) a =
      if leb revenue (num py 0) || leb a.wacc a.terminal_growth
      then none
      else (let (pv, last) = discounted a 1 years revenue (num py 0) (num py 0) in
          let terminal =
            div (mul last (add (num py 1) a.terminal_growth)) (sub a.wacc a.terminal_growth) in
          some (add pv (div terminal (pow (add (num py 1) a.wacc) years))))

  -- `max(-0.5, min(hi, v))`
  abbrev pub cut : F → F → F
  cut hi v = maximum py (sub (num py 0) (dec 5 1)) (minimum py hi v)

  unfoldable pub base_margin : Ipo F → Option F
  base_margin ipo = of ipo.ebitda_m ipo.revenue_m
    where
      of : Option F → Option F → Option F
      of (some e) (some r) = if truthy py (some r) then some (cut (dec 6 1) (div e r)) else none
      of _ _ = none

  unfoldable pub market_cap : Ipo F → Option F
  market_cap ipo = of (or_else py ipo.final_price ipo.price_high) ipo.post_issue_shares_m
    where
      of : Option F → Option F → Option F
      of (some px) (some shares) = some (mul px shares)
      of _ _ = none

  -- What `_solve_implied_cagr` tries at a growth rate.
  abbrev pub assumed : F → F → F → F → F → Assumptions F
  assumed margin_start margin_end wacc terminal_growth cagr = record {
    revenue_cagr = cagr;
    margin_start = margin_start;
    margin_end = margin_end;
    wacc = wacc;
    terminal_growth = terminal_growth;
    tax_rate = dec 25 2;
    capex_pct_revenue = dec 6 2;
  }

  abbrev pub middle : F → F → F
  middle lo hi = div (add lo hi) (num py 2)

  -- One round: none where the projection gives nothing, else the half that is kept.
  unfoldable pub halve : (F → Option F) → F → F → F → Option (F × F)
  halve value target lo hi = keep (value (middle lo hi))
    where
      keep : Option F → Option (F × F)
      keep none = none
      keep (some ev) = some (if lt py ev target then (middle lo hi, hi) else (lo, middle lo hi))

  -- the loop of `_solve_implied_cagr` over its rounds
  unfoldable pub bisect : (F → Option F) → F → ℕ → Option (F × F) → Option (F × F)
  bisect value target zero range = range
  bisect value target (suc n) none = none
  bisect value target (suc n) (some (lo, hi)) = bisect value target n (halve value target lo hi)

  abbrev pub middle_of : Option (F × F) → Option F
  middle_of none = none
  middle_of (some (lo, hi)) = some (middle lo hi)

  -- `_base_margin(ipo) or margin_end`
  abbrev pub margin_or : Option F → F → F
  margin_or none end = end
  margin_or (some m) end = if truthy py (some m) then m else end

  unfoldable pub solve_implied_cagr : Ipo F → F → F → F → F → Option F
  solve_implied_cagr ipo equity margin_end wacc terminal_growth =
      let start = margin_or (base_margin ipo) margin_end in
      let target = sub equity (sub (or_zero py ipo.cash_m) (or_zero py ipo.debt_m)) in
      let value = λ (g : F).
        project_equity_value ipo.revenue_m (assumed start margin_end wacc terminal_growth g) in
      middle_of (bisect value target 60 (some (sub (num py 0) (dec 3 1), num py 3)))

  -- `_base_growth`; the division is guarded by both truths, so nothing is raised
  unfoldable pub base_growth : Ipo F → Option F
  base_growth ipo =
      if truthy py ipo.revenue_m && truthy py ipo.revenue_prev_m
      then growth ipo.revenue_m ipo.revenue_prev_m
      else none
    where
      growth : Option F → Option F → Option F
      growth (some r) (some p) = some (cut (num py 2) (sub (div r p) (num py 1)))
      growth _ _ = none

  abbrev pub if_truthy : (F → F) → Option F → Option F
  if_truthy f none = none
  if_truthy f (some x) = if truthy py (some x) then some (f x) else none

  -- the assumptions of a scenario: its growth multiple, target margin and discount rate
  unfoldable pub scenario_assumptions : Ipo F → F → F → F → F → F → Assumptions F
  scenario_assumptions ipo margin growth multiple target wacc = record {
    revenue_cagr = maximum py (sub (num py 0) (dec 1 1)) (mul growth multiple);
    margin_start = margin;
    margin_end = maximum py (sub (num py 0) (dec 3 1)) (minimum py (dec 45 2) target);
    wacc = wacc;
    terminal_growth = if is_india py ipo then dec 4 2 else dec 3 2;
    tax_rate = dec 25 2;
    capex_pct_revenue = dec 6 2;
  }

  -- the value per share of a scenario, before rounding, where the share count is known
  unfoldable pub per_share : Ipo F → F → Option F
  per_share ipo equity = if_truthy (λ n. div equity n) ipo.post_issue_shares_m

  -- the upside against the price, in percent
  unfoldable pub upside : Ipo F → Option F → Option F
  upside ipo none = none
  upside ipo (some v) =
      if truthy py (some v)
      then if_truthy (λ px. mul (sub (div v px) (num py 1)) (num py 100))
          (or_else py ipo.final_price ipo.price_high)
      else none

  -- A scenario: enterprise value, equity value, value per share and upside, none where there is none.
  unfoldable pub scenario : Ipo F → Assumptions F → Option (F × F × Option F × Option F)
  scenario ipo a = valued (project_equity_value ipo.revenue_m a)
    where
      valued : Option F → Option (F × F × Option F × Option F)
      valued none = none
      valued (some ev) =
          let equity = add ev (sub (or_zero py ipo.cash_m) (or_zero py ipo.debt_m)) in
          let share = per_share ipo equity in
          some (
            py.round ev 1,
            py.round equity 1,
            if_truthy (λ v. py.round v 2) share,
            round_some (upside ipo share),
          )
        where
          round_some : Option F → Option F
          round_some none = none
          round_some (some v) = some (py.round v 1)

  abbrev pub growth_or_default : Option F → F
  growth_or_default none = dec 15 2
  growth_or_default (some g) = g

  -- `scenario_dcf`: the bear, base and bull scenarios, none where revenue or margin is missing.
  unfoldable pub scenario_dcf : Ipo F → Option (List (Option (F × F × Option F × Option F)))
  scenario_dcf ipo = with_inputs ipo.revenue_m (base_margin ipo)
    where
      all : F → List (Option (F × F × Option F × Option F))
      all m =
          let g = growth_or_default (base_growth ipo) in
          scenario ipo
            (scenario_assumptions ipo m g (dec 55 2) (maximum py m (mul m (dec 85 2))) (dec 13 2))
          ∷ scenario ipo
              (scenario_assumptions ipo m g (num py 1) (maximum py (add m (dec 3 2)) m) (dec 11 2))
          ∷ scenario ipo (scenario_assumptions ipo m g (dec 145 2) (add m (dec 8 2)) (dec 10 2))
          ∷ []

      with_inputs : Option F → Option F → Option (List (Option (F × F × Option F × Option F)))
      with_inputs (some r) (some m) = if leb r (num py 0) then none else some (all m)
      with_inputs _ _ = none
