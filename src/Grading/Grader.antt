-- ===== src/Grading/Grader.antt =====
-- app/services/outcomes.py: the grader. Where prices come from is a parameter: `history` stands for the
-- stored official bars or the fetch that replaces them, `benchmark` for the index of a country. A parsed
-- listing date is midnight, so its timestamp is its day times 86400.
use ipointel.Base.{
  ℕ, ◌+◌, ◌*◌, String, Bool, true, false, not, ◌&&◌, ◌||◌, Option, none, some, List, [], ◌∷◌, ◌++◌,
  ltb, leb, is_empty, is_some, take, length, ◌==◌, if◌then◌else◌,
}
use ipointel.Runtime.{Runtime}
use ipointel.Runtime.Order.{truthy}
use ipointel.Ipo.{Ipo}
use ipointel.Market.{
  Bar, Split, Returns, day_seconds, return_if, return_pct, map_option, windowed_returns,
  bar_on_or_after, bar_nearest_before_or_on,
}
use ipointel.Grading.{
  Outcome, Note, graded, pending, blocked_market_data, no_price_series, unparseable_date,
  no_session_bar, no_close, same_category,
}
use ipointel.Grading.Ledger.{Row, Tally, bump, empty_tally, forward_ledger}

abbrev pub retry_blocked_after_days : ℕ
retry_blocked_after_days = 14

pub record History (F : Type 0) : Type 0 where
  pub prices : List (Bar F)
  pub url : String
  pub splits : List (Split F)
  pub error : Option String

-- What an attempt found: why it is blocked, or the returns.
pub data Verdict (F : Type 0) : Type 0 where
  blocked : Note → Verdict F
  returned : Returns F → Verdict F

module _ {F : Type 0} where
  -- a new row of `_outcome_for`
  unfoldable pub new_outcome : ℕ → ℕ → Outcome F
  new_outcome snapshot_id ipo_id = record {
    score_snapshot_id = snapshot_id;
    ipo_id = ipo_id;
    listing_open_return_pct = none;
    listing_close_return_pct = none;
    return_7d_pct = none;
    return_30d_pct = none;
    return_6m_pct = none;
    return_12m_pct = none;
    return_24m_pct = none;
    benchmark_relative_return_pct = none;
    source_name = "";
    grading_status = none;
    grading_note = none;
    graded_at = none;
  }

  unfoldable pub find_outcome : ℕ → List (Outcome F) → Option (Outcome F)
  find_outcome id [] = none
  find_outcome id (o ∷ os) =
      let rest = find_outcome id os in if o.score_snapshot_id == id then some o else rest

  -- A write to the row that `_outcome_for` finds or adds.
  unfoldable pub write_outcome :
      ℕ → ℕ → (Outcome F → Outcome F) → List (Outcome F) → List (Outcome F)
  write_outcome id ipo_id f [] = f (new_outcome id ipo_id) ∷ []
  write_outcome id ipo_id f (o ∷ os) =
      let rest = write_outcome id ipo_id f os in
      if o.score_snapshot_id == id then f o ∷ os else o ∷ rest

  -- `_block`
  unfoldable pub block : Note → ℕ → Outcome F → Outcome F
  block note when o = record o {
    grading_status = some blocked_market_data;
    grading_note = some note;
    graded_at = some when;
    listing_open_return_pct = none;
    listing_close_return_pct = none;
    return_7d_pct = none;
    return_30d_pct = none;
    return_6m_pct = none;
    return_12m_pct = none;
    return_24m_pct = none;
    benchmark_relative_return_pct = none;
  }

  unfoldable pub retry_due : Option (Outcome F) → ℕ → Bool
  retry_due none today = true
  retry_due (some o) today = is_due o.graded_at
    where
      is_due : Option ℕ → Bool
      is_due none = true
      is_due (some at) = leb (at + retry_blocked_after_days) today

  -- Whether a ledger row is attempted.
  unfoldable pub is_attempted : (ℕ → Option (Outcome F)) → ℕ → Row → Bool
  is_attempted outcomes today row =
      same_category row.category pending
      || (same_category row.category blocked_market_data
          && retry_due (outcomes row.snapshot_id) today)

-- `todo.setdefault(ipo_id, []).append(snapshot_id)`
unfoldable pub add_todo : ℕ → ℕ → List (ℕ × List ℕ) → List (ℕ × List ℕ)
add_todo ipo_id id [] = (ipo_id, id ∷ []) ∷ []
add_todo ipo_id id ((i, ids) ∷ todo) =
    let rest = add_todo ipo_id id todo in
    if i == ipo_id then (i, ids ++ id ∷ []) ∷ todo else (i, ids) ∷ rest

-- The rows to attempt, by IPO, and the tally of those skipped.
unfoldable pub sort_out :
    (Row → Bool) → List Row → List (ℕ × List ℕ) → Tally → List (ℕ × List ℕ) × Tally
sort_out attempted [] todo skipped = (todo, skipped)
sort_out attempted (row ∷ rows) todo skipped =
    if attempted row
    then sort_out attempted rows (add_todo row.ipo_id row.snapshot_id todo) skipped
    else sort_out attempted rows todo (bump row.category skipped)

pub record Result (F : Type 0) : Type 0 where
  pub outcomes : List (Outcome F)
  pub checked : ℕ
  pub n_graded : ℕ
  pub n_blocked : ℕ

abbrev pub nothing_done : {F : Type 0} → List (Outcome F) → Result F
nothing_done os = record { outcomes = os; checked = 0; n_graded = 0; n_blocked = 0 }

module _ (py : Runtime) where
  open py use {F, sub, div, mul, round}

  abbrev pub rounded : Option F → Option F
  rounded v = map_option (λ x. round x 2) v

  -- `_grade`
  unfoldable pub grade : Ipo F → Returns F → Option F → String → ℕ → Outcome F → Outcome F
  grade ipo wr bench_rel source_url when o = record o {
    listing_open_return_pct = rounded (return_if py wr.listing_open ipo.final_price);
    listing_close_return_pct =
        if is_some wr.listing_return_pct
        then rounded wr.listing_return_pct
        else rounded (return_if py wr.listing_close ipo.final_price);
    return_7d_pct = rounded wr.return_7d_pct;
    return_30d_pct = rounded wr.return_30d_pct;
    return_6m_pct = rounded wr.return_6m_pct;
    return_12m_pct = rounded wr.return_12m_pct;
    return_24m_pct = rounded wr.return_24m_pct;
    benchmark_relative_return_pct = rounded bench_rel;
    source_name = if is_empty source_url then "Yahoo Finance fallback" else source_url;
    grading_status = some graded;
    grading_note = none;
    graded_at = some when;
  }

  -- the excess of a return over that of the benchmark's bars
  unfoldable pub excess : Option (Bar F) → Option (Bar F) → F → Option F
  excess (some start) (some end) ret =
      if truthy py (some start.close) && ltb start.ts end.ts
      then some (sub ret (return_pct py end.close start.close))
      else none
  excess _ _ ret = none

  unfoldable pub benchmark_relative_12m : List (Bar F) → ℕ → Option F → Option F
  unfolding excess
  benchmark_relative_12m bars listing_ts none = none
  benchmark_relative_12m bars listing_ts (some ret) =
      excess (bar_on_or_after bars listing_ts)
        (bar_nearest_before_or_on bars (listing_ts + 365 * day_seconds)) ret

  unfoldable pub verdict_of : Option (Returns F) → Verdict F
  verdict_of none = blocked no_session_bar
  verdict_of (some wr) =
      if is_some wr.listing_return_pct || is_some wr.listing_close
      then returned wr
      else blocked no_close

  abbrev pub listing_ts : (String → Option ℕ) → Ipo F → Option ℕ
  listing_ts parse_date ipo = map_option (λ d. d * day_seconds) (parse_date ipo.listing_date)

  abbrev pub is_nil : List (Bar F) → Bool
  is_nil [] = true
  is_nil (b ∷ bars) = false

  module _ (parse_date : String → Option ℕ) (history : Ipo F → History F) where
    unfoldable pub attempt : Ipo F → Verdict F
    unfolding verdict_of
    attempt ipo =
        let h = history ipo in
        if is_nil h.prices
        then blocked (no_price_series ipo.symbol h.error)
        else if not (is_some (listing_ts parse_date ipo))
        then blocked unparseable_date
        else verdict_of
            (windowed_returns py h.prices (listing_ts parse_date ipo) ipo.final_price h.splits)

  module _ (parse_date : String → Option ℕ) (history : Ipo F → History F)
      (benchmark : String → List (Bar F)) where
    -- the write that a verdict makes to each outcome of the IPO
    unfoldable pub settle : Ipo F → ℕ → Verdict F → Outcome F → Outcome F
    unfolding block grade
    settle ipo when (blocked note) o = block note when o
    settle ipo when (returned wr) o =
        grade ipo wr (relative (listing_ts parse_date ipo)) (history ipo).url when o
      where
        relative : Option ℕ → Option F
        relative none = none
        relative (some ts) = benchmark_relative_12m (benchmark ipo.country) ts wr.return_12m_pct

  module _ (parse_date : String → Option ℕ) (history : Ipo F → History F)
      (benchmark : String → List (Bar F)) (ipos : ℕ → Option (Ipo F)) where
    unfoldable pub settle_all :
        (Outcome F → Outcome F) → ℕ → List ℕ → List (Outcome F) → List (Outcome F)
    settle_all f ipo_id [] os = os
    settle_all f ipo_id (id ∷ ids) os = settle_all f ipo_id ids (write_outcome id ipo_id f os)

    unfoldable pub attempt_one : ℕ → ℕ × List ℕ → Result F → Result F
    unfolding attempt settle
    attempt_one when (ipo_id, ids) r = with_ipo (ipos ipo_id)
      where
        tally : Verdict F → Result F → Result F
        tally (blocked note) r' = record r' { n_blocked = r'.n_blocked + length ids }
        tally (returned wr) r' = record r' { n_graded = r'.n_graded + length ids }

        with_ipo : Option (Ipo F) → Result F
        with_ipo none = r
        with_ipo (some ipo) =
            let verdict = attempt parse_date history ipo in
            tally verdict (record r {
              outcomes =
                  settle_all (settle parse_date history benchmark ipo when verdict) ipo_id ids
                    r.outcomes;
              checked = r.checked + length ids;
            })

    unfoldable pub attempt_each : ℕ → List (ℕ × List ℕ) → Result F → Result F
    attempt_each when [] r = r
    attempt_each when (t ∷ todo) r = attempt_each when todo (attempt_one when t r)

    -- `sync_prediction_outcomes`, with the setting that allows it
    unfoldable pub sync_prediction_outcomes :
        Bool → ℕ → ℕ → ℕ → List (ℕ × ℕ) → List (Outcome F) → Result F × Tally
    sync_prediction_outcomes allowed limit today when snaps os =
        let find = λ (id : ℕ). find_outcome id os in
        let rows = forward_ledger py parse_date ipos find today snaps in
        let (todo, skipped) = sort_out (is_attempted find today) rows [] empty_tally in
        if allowed
        then (attempt_each when (take limit todo) (nothing_done os), skipped)
        else (nothing_done os, empty_tally)
