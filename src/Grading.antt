-- ===== src/Grading.antt =====
-- app/services/forward_grading.py and app/services/outcomes.py: the category of each forward prediction,
-- the ledger and its counts, and the grader that attaches realized returns. `parse_date` stands for the
-- date parser, which rests on `strptime`; days and the clock are day numbers.
pub mod Ledger
pub mod Grader
pub mod Progress
pub mod Suppressed
mod Tests
use ipointel.Base.{
  ℕ, ◌+◌, ◌*◌, String, Bool, true, false, not, ◌&&◌, ◌||◌, Option, none, some, List, [], ◌∷◌, ltb,
  leb, is_empty, is_some, if◌then◌else◌,
}
use text.Mathlib.Text.{◌==◌}
use ipointel.Runtime.{Runtime}
use ipointel.Runtime.Order.{num, truthy}
use ipointel.Ipo.{Ipo}

pub data Category : Type 0 where
  graded pending blocked_identity blocked_offer_price : Category
  blocked_market_data not_yet_eligible invalid_forward_record : Category

-- Why a grading attempt found no usable price series.
pub data Note : Type 0 where
  no_price_series : String → Option String → Note
  unparseable_date no_session_bar no_close : Note

-- The reason of a category, by the sentence that gives it.
pub data Reason : Type 0 where
  issue_is not_listed_yet : String → Reason
  noted : Note → Reason
  attached attached_legacy no_listing_date listed_today : Reason
  no_symbol no_offer_price no_series_noted awaiting row_missing : Reason

pub record Outcome (F : Type 0) : Type 0 where
  pub score_snapshot_id : ℕ
  pub ipo_id : ℕ
  pub listing_open_return_pct : Option F
  pub listing_close_return_pct : Option F
  pub return_7d_pct : Option F
  pub return_30d_pct : Option F
  pub return_6m_pct : Option F
  pub return_12m_pct : Option F
  pub return_24m_pct : Option F
  pub benchmark_relative_return_pct : Option F
  pub source_name : String
  -- none for the empty text that a new row has
  pub grading_status : Option Category
  -- none for the empty text
  pub grading_note : Option Note
  pub graded_at : Option ℕ

abbrev pub min_days_since_listing : ℕ
min_days_since_listing = 1

abbrev pub index : Category → ℕ
index graded = 0
index pending = 1
index blocked_identity = 2
index blocked_offer_price = 3
index blocked_market_data = 4
index not_yet_eligible = 5
index invalid_forward_record = 6

abbrev pub same_category : Category → Category → Bool
same_category a b = leb (index a) (index b) && leb (index b) (index a)

abbrev pub is_marked : Category → Option Category → Bool
is_marked c none = false
is_marked c (some d) = same_category c d

module _ {F : Type 0} where
  abbrev pub has_return : Outcome F → Bool
  has_return o =
      is_some o.listing_open_return_pct
      || (is_some o.listing_close_return_pct
          || (is_some o.return_7d_pct
              || (is_some o.return_30d_pct
                  || (is_some o.return_6m_pct
                      || (is_some o.return_12m_pct || is_some o.return_24m_pct)))))

  abbrev pub outcome_has_return : Option (Outcome F) → Bool
  outcome_has_return none = false
  outcome_has_return (some o) = has_return o

  -- `outcome is not None and (outcome.grading_status or "") == c`
  abbrev pub status_is : Category → Option (Outcome F) → Bool
  status_is c none = false
  status_is c (some o) = is_marked c o.grading_status

  abbrev pub note_of : Option (Outcome F) → Reason
  note_of none = no_series_noted
  note_of (some o) = reason_of o.grading_note
    where
      reason_of : Option Note → Reason
      reason_of none = no_series_noted
      reason_of (some note) = noted note

module _ (py : Runtime) where
  open py use {F}

  -- `not ipo.final_price or ipo.final_price <= 0`
  abbrev pub no_price : Option F → Bool
  no_price none = true
  no_price (some p) = not (truthy py (some p)) || py.leb p (num py 0)

  -- The part of `classify_prediction` from the listing date on.
  unfoldable pub classify_listed : Ipo F → Option (Outcome F) → ℕ → Option ℕ → Category × Reason
  classify_listed ipo outcome today none = (blocked_identity, no_listing_date)
  classify_listed ipo outcome today (some listing) =
      if ltb today (listing + min_days_since_listing)
      then (not_yet_eligible, listed_today)
      else if is_empty ipo.symbol
      then (blocked_identity, no_symbol)
      else if no_price ipo.final_price
      then (blocked_offer_price, no_offer_price)
      else if status_is blocked_market_data outcome
      then (blocked_market_data, note_of outcome)
      else (pending, awaiting)

module _ (py : Runtime) (parse_date : String → Option ℕ) where
  open py use {F}

  unfoldable pub classify_prediction : Ipo F → Option (Outcome F) → ℕ → Category × Reason
  unfolding classify_listed
  classify_prediction ipo outcome today =
      if (ipo.status == "Not IPO") || (ipo.status == "Withdrawn")
      then (invalid_forward_record, issue_is ipo.status)
      else if status_is graded outcome && outcome_has_return outcome
      then (graded, attached)
      else if outcome_has_return outcome
      then (graded, attached_legacy)
      else if not (ipo.status == "Listed")
      then (not_yet_eligible, not_listed_yet ipo.status)
      else classify_listed py ipo outcome today (parse_date ipo.listing_date)
