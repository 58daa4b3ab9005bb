-- ===== src/Scoring/Valuation.antt =====
-- `valuation` of app/scoring.py: the price against the peers' earnings and sales multiples.
use ipointel.Base.{Option, none, some, List, [], ◌∷◌, ◌++◌, if◌then◌else◌, ◌&&◌}
use ipointel.Runtime.{Runtime}
use ipointel.Runtime.Order.{num, lt, nonzero, or_else}
use ipointel.Ipo.{Ipo}
use ipointel.Scoring.{safe_div, clamp}

pub data Label : Type 0 where
  insufficient_data underpriced fair overpriced : Label

-- `Valuation`, without the notes, which are prose
pub record Valuation (F : Type 0) : Type 0 where
  pub label : Label
  pub score : F
  pub fair_low : Option F
  pub fair_high : Option F
  pub implied_pe : Option F
  pub implied_ps : Option F

module _ (py : Runtime) where
  open py use {F, dec, sub, mul, div, leb, mean}

  -- A product where both are known and not zero, as `a * b if a and b else None`.
  unfoldable pub product_if : Option F → Option F → Option F
  product_if none b = none
  product_if (some a) none = none
  product_if (some a) (some b) = if nonzero py a && nonzero py b then some (mul a b) else none

  -- `safe_div(mcap, x) if x and x > 0 else None`
  unfoldable pub multiple : Option F → Option F → Option F
  unfolding safe_div
  multiple mcap none = none
  multiple mcap (some x) =
      if nonzero py x && lt py (num py 0) x then safe_div py mcap (some x) else none

  -- One comparison with the peers: its score and the price at which the multiples agree.
  unfoldable pub against_peers : Option F → Option F → Option F → List (F × F)
  unfolding clamp
  against_peers none peer px = []
  against_peers (some m) none px = []
  against_peers (some m) (some peer) none = []
  against_peers (some m) (some peer) (some px) =
      let ratio = div m peer in
      if nonzero py m && nonzero py peer
      then (
        clamp py (sub (num py 100) (mul (div (sub ratio (dec 65 2)) (dec 10 1)) (num py 100))),
        div px ratio,
      )
        ∷ []
      else []

  scores : List (F × F) → List F
  scores [] = []
  scores ((s, f) ∷ xs) = s ∷ scores xs

  fairs : List (F × F) → List F
  fairs [] = []
  fairs ((s, f) ∷ xs) = f ∷ fairs xs

  -- The thresholds of the label.
  unfoldable pub label_of : F → Label
  label_of s =
      if leb (num py 72) s then underpriced else if leb (num py 45) s then fair else overpriced

  scaled : F → F → Option F
  scaled base by = if nonzero py base then some (mul base by) else none

  unfoldable pub judge : Option F → Option F → List (F × F) → Valuation F
  unfolding label_of scaled scores fairs
  judge pe ps [] = record {
    label = insufficient_data;
    score = num py 50;
    fair_low = none;
    fair_high = none;
    implied_pe = pe;
    implied_ps = ps;
  }
  judge pe ps (x ∷ xs) =
      let s = mean (scores (x ∷ xs)) in
      let base = mean (fairs (x ∷ xs)) in
      record {
        label = label_of s;
        score = s;
        fair_low = scaled base (dec 9 1);
        fair_high = scaled base (dec 11 1);
        implied_pe = pe;
        implied_ps = ps;
      }

  -- `valuation`
  unfoldable pub valuation : Ipo F → Valuation F
  unfolding judge against_peers multiple product_if
  valuation ipo =
      let px = or_else py ipo.final_price ipo.price_high in
      let mcap = product_if px ipo.post_issue_shares_m in
      let pe = multiple mcap ipo.net_income_m in
      let ps = multiple mcap ipo.revenue_m in
      judge pe ps (against_peers pe ipo.peer_median_pe px ++ against_peers ps ipo.peer_median_ps px)
