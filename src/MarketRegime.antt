-- ===== src/MarketRegime.antt =====
-- app/services/market_regime.py: the state of the benchmark index before a listing, and the pass that
-- records it. Times are seconds since the epoch. The index history, `parse_date`, the day of a time, and
-- the logarithm and the square root are parameters.
pub mod PointInTime
mod Tests
use text.Mathlib.Text.{◌==◌ as str_eq}
use ipointel.Base.{
  ℕ, zero, suc, ◌+◌, ◌-◌, ◌*◌, String, Bool, true, false, not, ◌&&◌, ◌||◌, Option, none, some, List,
  [], ◌∷◌, ◌++◌, map, ltb, leb, ◌==◌, if◌then◌else◌, is_empty, length, filter, sort_by, any,
  get_last?, zip_with,
}
use ipointel.Base.Text.{Chars}
use ipointel.Runtime.{Runtime}
use ipointel.Runtime.Order.{num, truthy}
use ipointel.Ipo.{Ipo}
use ipointel.Market.{day_seconds, return_pct}
use ipointel.ModelEval.Available.{Observation, leb_text}
use ipointel.Walkforward.{sum, square}

pub record Bar (F : Type 0) : Type 0 where
  pub ts : ℕ
  pub close : Option F

-- A bar with a close that is there and not zero.
pub record Close (F : Type 0) : Type 0 where
  pub ts : ℕ
  pub price : F

pub record Regime (F : Type 0) : Type 0 where
  pub market_return_60d_pct : F
  pub market_vol_20d_pct : F
  -- the time of the last close; the code keeps its day
  pub as_of : ℕ

abbrev pub lookback_days : ℕ
lookback_days = 60

abbrev pub vol_window : ℕ
vol_window = 20

abbrev pub max_staleness_days : ℕ
max_staleness_days = 7

-- the bars from the first one on that satisfies a test
abbrev pub drop_until : {A : Type 0} → (A → Bool) → List A → List A
drop_until test [] = []
drop_until test (x ∷ xs) = let rest = drop_until test xs in if test x then x ∷ xs else rest

-- `xs[-n:]`
abbrev pub last_n : {A : Type 0} → ℕ → List A → List A
last_n n [] = []
last_n n (x ∷ xs) = let rest = last_n n xs in if leb (length (x ∷ xs)) n then x ∷ xs else rest

-- `STATUSES`
abbrev pub is_tracked : String → Bool
is_tracked s =
    str_eq s "Listed"
    || (str_eq s "Upcoming" || (str_eq s "Open" || (str_eq s "Closed" || str_eq s "Priced")))

module _ (py : Runtime) (log sqrt : py.F → py.F) where
  open py use {F, sub, mul, div, round}

  -- One bar of `[b for b in bars if b.get("close") and b["ts"] < cutoff]`.
  unfoldable pub keep_prior : ℕ → ℕ → Option F → List (Close F) → List (Close F)
  keep_prior cutoff ts none rest = rest
  keep_prior cutoff ts (some c) rest =
      if truthy py (some c) && ltb ts cutoff then record { ts = ts; price = c } ∷ rest else rest

  unfoldable pub prior_to : ℕ → List (Bar F) → List (Close F)
  unfolding keep_prior
  prior_to cutoff [] = []
  prior_to cutoff (b ∷ bars) = keep_prior cutoff b.ts b.close (prior_to cutoff bars)

  -- the logarithms of the steps between neighbours
  abbrev pub steps : List (Close F) → List F
  steps [] = []
  steps (a ∷ []) = []
  steps (a ∷ b ∷ rest) = log (div b.price a.price) ∷ steps (b ∷ rest)

  unfoldable pub volatility : List F → F
  volatility rets =
      let m = div (sum py rets) (num py (length rets)) in
      mul
        (mul (sqrt (div (sum py (map (λ r. square py (sub r m)) rets)) (num py (length rets - 1))))
          (sqrt (num py 252)))
        (num py 100)

  -- The regime over the closes from the base on: none if there is no base, if it lies more than a week
  -- after the start of the window, or if it is the last close itself.
  unfoldable pub from_base : List (Close F) → Close F → List (Close F) → Option (Regime F)
  unfolding volatility
  from_base prior last [] = none
  from_base prior last (base ∷ []) = none
  from_base prior last (base ∷ next ∷ rest) =
      if ltb (last.ts + max_staleness_days * day_seconds) (base.ts + lookback_days * day_seconds)
      then none
      else some (record {
        market_return_60d_pct = return_pct py last.price base.price;
        market_vol_20d_pct = volatility (steps (last_n (vol_window + 1) prior));
        as_of = last.ts;
      })

  -- `start_ts <= b["ts"]` is written `last["ts"] <= b["ts"] + 60 days`.
  unfoldable pub regime_of : ℕ → List (Close F) → Option (Close F) → Option (Regime F)
  unfolding from_base
  regime_of cutoff prior none = none
  regime_of cutoff prior (some last) =
      if ltb (length prior) (vol_window + 1)
        || ltb (last.ts + max_staleness_days * day_seconds) cutoff
      then none
      else from_base prior last
          (drop_until (λ b. leb last.ts (b.ts + lookback_days * day_seconds)) prior)

  -- `regime_at`, of a listing date that may not parse
  unfoldable pub regime_at : List (Bar F) → Option ℕ → Option (Regime F)
  unfolding prior_to regime_of
  regime_at bars none = none
  regime_at bars (some cutoff) =
      let prior = prior_to cutoff bars in regime_of cutoff prior (get_last? prior)

  pub record Counts : Type 0 where
    pub candidates : ℕ
    pub written : ℕ
    pub no_window : ℕ
    pub failed : Bool

  module _ (parse_date : String → Option ℕ) (day : ℕ → Chars) (first_ten : String → Chars)
      (today : Chars) where
    -- The two observations of a regime.
    abbrev pub observations : Ipo F → Regime F → List (Observation F)
    observations ipo r =
        record {
          ipo_id = ipo.id;
          field_name = "market_return_60d_pct";
          value = some (round r.market_return_60d_pct 4);
          availability_rule = "market_index_close";
          available_at = day r.as_of;
          period_end = day r.as_of;
        }
        ∷ record {
          ipo_id = ipo.id;
          field_name = "market_vol_20d_pct";
          value = some (round r.market_vol_20d_pct 4);
          availability_rule = "market_index_close";
          available_at = day r.as_of;
          period_end = day r.as_of;
        }
        ∷ []

    abbrev pub write :
        Ipo F → Option (Regime F) → Counts × List (Observation F) → Counts × List (Observation F)
    write ipo none (c, rows) = (record c { no_window = c.no_window + 1 }, rows)
    write ipo (some r) (c, rows) =
        (record c { written = c.written + 1 }, rows ++ observations ipo r)

    -- The loop over the issues that have no regime yet.
    unfoldable pub write_all :
        List (Bar F) → List (Ipo F) → Counts × List (Observation F) → Counts × List (Observation F)
    unfolding regime_at
    write_all bars [] acc = acc
    write_all bars (ipo ∷ todo) acc = write_all bars todo (
        if not (leb_text (first_ten ipo.listing_date) today)
        then acc
        else write ipo (regime_at bars (parse_date ipo.listing_date)) acc)

    -- `_existing`
    abbrev pub is_done : List (Observation F) → Ipo F → Bool
    is_done rows ipo =
        any
          (λ o.
            o.ipo_id == ipo.id
            && (str_eq o.field_name "market_return_60d_pct"
                && str_eq o.availability_rule "market_index_close"))
          rows

    -- One country of `refresh`; the history is none where the fetch raised.
    unfoldable pub refresh :
        String
        → List (Ipo F)
        → Option (List (Bar F))
        → List (Observation F)
        → Counts × List (Observation F)
    unfolding write_all
    refresh country table fetched rows =
        let todo =
          filter
            (λ i.
              str_eq i.country country
              && (is_tracked i.status && (not (is_empty i.listing_date) && not (is_done rows i))))
            table in
        let counts : Counts = record {
          candidates = length todo;
          written = 0;
          no_window = 0;
          failed = false;
        } in
        elim fetched [
          | none ↦ (record counts { failed = not (length todo == 0) }, rows)
          | some bars ↦ write_all (sort_by (λ a b. leb a.ts b.ts) bars) todo (counts, rows)
        ]
