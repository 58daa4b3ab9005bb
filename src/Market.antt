-- ===== src/Market.antt =====
-- app/services/market.py, lines 44-158: bar searches, the issue price in split-adjusted terms, and the
-- returns after a listing. Times are seconds since the epoch; a parsed listing date is its timestamp.
pub mod Bars
pub mod Windows
mod Tests
use ipointel.Base.{
  ℕ, ◌+◌, ◌*◌, Bool, true, false, not, ◌&&◌, ◌||◌, Option, none, some, List, [], ◌∷◌, ltb, leb,
  if◌then◌else◌,
}
use ipointel.Runtime.{Runtime}
use ipointel.Runtime.Order.{num, lt, eq, truthy, or_else}

pub record Bar (F : Type 0) : Type 0 where
  pub ts : ℕ
  -- the key `open`
  pub opening : Option F
  pub close : F

pub record Split (F : Type 0) : Type 0 where
  pub ts : ℕ
  pub factor : F

-- What `windowed_returns` puts into its result; a key that is absent is none.
pub record Returns (F : Type 0) : Type 0 where
  pub session : ℕ
  pub listing_close : Option F
  pub listing_open : Option F
  -- whether `base` is "issue_price"
  pub on_issue_price : Bool
  pub issue_price_split_factor : Option F
  pub listing_return_pct : Option F
  -- whether `listing_return_note` is there
  pub suppressed : Bool
  pub listing_open_return_pct : Option F
  pub listing_day_return_pct : Option F
  pub return_7d_pct : Option F
  pub return_1m_pct : Option F
  pub return_30d_pct : Option F
  pub return_90d_pct : Option F
  pub return_6m_pct : Option F
  pub return_12m_pct : Option F
  pub return_24m_pct : Option F
  pub latest_close : F
  pub latest_as_of : ℕ
  pub return_since_listing_pct : Option F

abbrev pub day_seconds : ℕ
day_seconds = 86_400

abbrev pub first_bar_tolerance_days : ℕ
first_bar_tolerance_days = 4

abbrev pub map_option : {A B : Type 0} → (A → B) → Option A → Option B
map_option f none = none
map_option f (some a) = some (f a)

abbrev pub and_then : {A B : Type 0} → (A → Option B) → Option A → Option B
and_then f none = none
and_then f (some a) = f a

module _ {F : Type 0} where
  unfoldable pub bar_on_or_after : List (Bar F) → ℕ → Option (Bar F)
  bar_on_or_after [] target = none
  bar_on_or_after (b ∷ bars) target =
      let rest = bar_on_or_after bars target in if leb target b.ts then some b else rest

  -- the loop of `bar_nearest_before_or_on` with its `best`
  unfoldable pub nearest_from : Option (Bar F) → List (Bar F) → ℕ → Option (Bar F)
  nearest_from best [] target = best
  nearest_from best (b ∷ bars) target =
      let rest = nearest_from (some b) bars target in if leb b.ts target then rest else best

  unfoldable pub bar_nearest_before_or_on : List (Bar F) → ℕ → Option (Bar F)
  bar_nearest_before_or_on bars target = nearest_from none bars target

  -- `bars[-1]` of the bar and those after it
  unfoldable pub last_bar : Bar F → List (Bar F) → Bar F
  last_bar b [] = b
  last_bar b (c ∷ bars) = last_bar c bars

  unfoldable pub in_time : ℕ → Option (Bar F) → Option (Bar F)
  in_time listing_ts none = none
  in_time listing_ts (some b) = if ltb (listing_ts + 14 * day_seconds) b.ts then none else some b

  -- The first bar if it lies near the stated date, else the first bar from that date on; none if it
  -- comes more than 14 days later.
  unfoldable pub listing_bar : Bar F → List (Bar F) → ℕ → Option (Bar F)
  listing_bar first bars listing_ts =
      let near =
        leb listing_ts (first.ts + first_bar_tolerance_days * day_seconds)
        && leb first.ts (listing_ts + 14 * day_seconds) in
      in_time listing_ts (if near then some first else bar_on_or_after (first ∷ bars) listing_ts)

module _ (py : Runtime) where
  open py use {F, sub, mul, div}

  -- `(a / b - 1) * 100`
  abbrev pub return_pct : F → F → F
  return_pct a b = mul (sub (div a b) (num py 1)) (num py 100)

  -- `x or None`
  abbrev pub or_none : Option F → Option F
  or_none v = if truthy py v then v else none

  unfoldable pub factor_after : F → ℕ → List (Split F) → F
  factor_after factor listing_ts [] = factor
  factor_after factor listing_ts (s ∷ splits) =
      factor_after (if ltb listing_ts s.ts then mul factor s.factor else factor) listing_ts splits

  unfoldable pub split_adjusted_issue_price : Option F → ℕ → List (Split F) → Option F
  split_adjusted_issue_price none listing_ts splits = none
  split_adjusted_issue_price (some p) listing_ts splits =
      if truthy py (some p)
      then some (mul p (factor_after (num py 1) listing_ts splits))
      else some p

  -- `abs(v) > IMPLAUSIBLE_LISTING_RETURN_PCT`
  abbrev pub is_implausible : F → Bool
  is_implausible v = lt py (num py 2000) v || lt py v (sub (num py 0) (num py 2000))

  unfoldable pub after_session : ℕ → F → Option (Bar F) → Option F
  after_session session base none = none
  after_session session base (some b) =
      if ltb session b.ts then some (return_pct b.close base) else none

  -- The return over a window: none before a bar from its end on exists, and none if no bar after the
  -- listing session lies in it.
  unfoldable pub window : Bar F → List (Bar F) → ℕ → F → ℕ → Option F
  window first bars session base days =
      let target = session + days * day_seconds in
      if ltb (last_bar first bars).ts target
      then none
      else after_session session base (bar_nearest_before_or_on (first ∷ bars) target)

  -- `(a / b - 1) * 100` where both are truthy
  abbrev pub return_if : Option F → Option F → Option F
  return_if (some a) (some b) =
      if truthy py (some a) && truthy py (some b) then some (return_pct a b) else none
  return_if _ _ = none

  abbrev pub is_implausible_at : Option F → Bool
  is_implausible_at none = false
  is_implausible_at (some r) = is_implausible r

  abbrev pub quotient_if_changed : Option F → Option F → Option F
  quotient_if_changed (some adjusted) (some raw) =
      if truthy py (some adjusted) && not (eq py adjusted raw)
      then some (div adjusted raw)
      else none
  quotient_if_changed _ _ = none

  -- The result from the listing session on, for the base that the windows are measured from.
  unfoldable pub measured :
      Bar F → List (Bar F) → Bar F → Option F → List (Split F) → F → Bool → Returns F
  unfolding window split_adjusted_issue_price
  measured first bars session issue_price splits base suppressed =
      let adjusted = split_adjusted_issue_price issue_price session.ts splits in
      let listing_close = or_none (some session.close) in
      let listing_open = or_none session.opening in
      let listing_return = return_if listing_close adjusted in
      let latest = last_bar first bars in
      record {
        session = session.ts;
        listing_close = listing_close;
        listing_open = listing_open;
        on_issue_price = truthy py issue_price && not suppressed;
        issue_price_split_factor = quotient_if_changed adjusted issue_price;
        listing_return_pct = if suppressed then none else listing_return;
        suppressed = suppressed;
        listing_open_return_pct = if suppressed then none else return_if listing_open adjusted;
        listing_day_return_pct = return_if listing_close listing_open;
        return_7d_pct = window first bars session.ts base 7;
        return_1m_pct = window first bars session.ts base 30;
        return_30d_pct = window first bars session.ts base 30;
        return_90d_pct = window first bars session.ts base 90;
        return_6m_pct = window first bars session.ts base 182;
        return_12m_pct = window first bars session.ts base 365;
        return_24m_pct = window first bars session.ts base 730;
        latest_close = latest.close;
        latest_as_of = latest.ts;
        return_since_listing_pct =
            if truthy py (some latest.close) then some (return_pct latest.close base) else none;
      }

  -- From the listing session: the base is the issue price, or the close where there is none or where
  -- the listing return is implausible.
  unfoldable pub from_session :
      Bar F → List (Bar F) → Bar F → Option F → List (Split F) → Option (Returns F)
  unfolding measured
  from_session first bars session issue_price splits =
      let adjusted = split_adjusted_issue_price issue_price session.ts splits in
      let listing_close = or_none (some session.close) in
      let suppressed = is_implausible_at (return_if listing_close adjusted) in
      let base = if suppressed then listing_close else or_else py adjusted listing_close in
      map_option (λ b. measured first bars session issue_price splits b suppressed) base

  -- `windowed_returns`, none for the empty dict
  unfoldable pub windowed_returns :
      List (Bar F) → Option ℕ → Option F → List (Split F) → Option (Returns F)
  windowed_returns [] listing_dt issue_price splits = none
  windowed_returns (first ∷ bars) none issue_price splits = none
  windowed_returns (first ∷ bars) (some listing_ts) issue_price splits =
      and_then (λ session. from_session first bars session issue_price splits)
        (listing_bar first bars listing_ts)
