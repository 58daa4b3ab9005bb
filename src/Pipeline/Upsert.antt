-- ===== src/Pipeline/Upsert.antt =====
-- The loop of `upsert_ipo` in app/services/pipeline.py, which writes the fields of a report over those of
-- a stored issue, and `external_key`. A row and an issue are dicts of values; `str` of a value and
-- `strip` are parameters.
use text.Mathlib.Text.{◌==◌}
use ipointel.Base.{
  ℕ, String, Bool, true, false, not, ◌&&◌, Option, none, some, List, [], ◌∷◌, ◌++◌, is_empty,
  if◌then◌else◌,
}
use ipointel.Base.Dict.{Dict, lookup, put_last}
use ipointel.Runtime.{Runtime}
use ipointel.Runtime.Order.{eq}
use ipointel.Identity.Status.{status_can_transition}
use ipointel.Pipeline.Sources.{Provenance, add_provenance}

-- A value of a row or a column; `null` is None.
pub data Value (F : Type 0) : Type 0 where
  null : Value F
  words : String → Value F
  number : F → Value F
  flag : Bool → Value F

abbrev pub text_of : {F : Type 0} → Option (Value F) → String
text_of (some (words s)) = s
text_of _ = ""

-- `value in (None, "")`
abbrev pub is_blank : {F : Type 0} → Value F → Bool
is_blank null = true
is_blank (words s) = is_empty s
is_blank _ = false

-- `row.get(key, "") == ""`
abbrev pub is_unset : {F : Type 0} → Option (Value F) → Bool
is_unset none = true
is_unset (some (words s)) = is_empty s
is_unset _ = false

-- `UPSERT_FIELDS`
abbrev pub upsert_fields : List String
upsert_fields =
    "company" ∷ "symbol" ∷ "isin" ∷ "country" ∷ "exchange" ∷ "board" ∷ "sector" ∷ "status"
    ∷ "filing_date" ∷ "open_date" ∷ "close_date" ∷ "listing_date" ∷ "currency" ∷ "price_low"
    ∷ "price_high" ∷ "final_price" ∷ "issue_size_m" ∷ "shares_offered_m" ∷ "post_issue_shares_m"
    ∷ "lot_size" ∷ "revenue_m" ∷ "revenue_prev_m" ∷ "revenue_2y_ago_m" ∷ "ebitda_m" ∷ "net_income_m"
    ∷ "cfo_m" ∷ "debt_m" ∷ "cash_m" ∷ "fresh_issue_pct" ∷ "ofs_pct" ∷ "promoter_retention_pct"
    ∷ "qib_sub" ∷ "nii_sub" ∷ "retail_sub" ∷ "total_sub" ∷ "gmp_pct" ∷ "underwriter_quality"
    ∷ "anchor_quality" ∷ "market_regime" ∷ "sector_regime" ∷ "dual_class" ∷ "lockup_days"
    ∷ "market_overhang_pct" ∷ "peer_median_pe" ∷ "peer_median_ps" ∷ "peer_median_ev_ebitda"
    ∷ "filing_url" ∷ "registrar" ∷ "allotment_url" ∷ []

-- What the loop works on: the columns of the issue, `changed_fields`, and the provenance table.
pub record Work (F : Type 0) : Type 0 where
  pub columns : Dict (Value F)
  pub changed : List String
  pub provenance : List Provenance

-- The report: its row and where it comes from.
pub record Report (F : Type 0) : Type 0 where
  pub row : Dict (Value F)
  pub source_name : String
  pub source_url : String
  pub source_tier : ℕ

module _ (py : Runtime) (numeric : String → Option py.F) (shown : Value py.F → String)
    (now ipo_id : ℕ) where
  open py use {F}

  -- `a != b`
  abbrev pub differs : Option (Value F) → Value F → Bool
  differs (some null) null = false
  differs none null = false
  differs (some (words a)) (words b) = not (a == b)
  differs (some (number a)) (number b) = not (eq py a b)
  differs (some (flag true)) (flag true) = false
  differs (some (flag false)) (flag false) = false
  differs _ _ = true

  unfoldable pub observe : Report F → String → Value F → List Provenance → List Provenance
  observe report f v provenance =
      add_provenance py numeric
        (record {
          ipo_id = ipo_id;
          field_name = f;
          source_name = report.source_name;
          source_url = report.source_url;
          source_tier = report.source_tier;
          observed_value = shown v;
          observed_at = now;
          is_conflict = false;
        })
        provenance

  unfoldable pub write_field : Report F → String → Value F → Work F → Work F
  unfolding observe
  write_field report f v w =
      let moved = differs (lookup f w.columns) v in
      record {
        columns = if moved then put_last f v w.columns else w.columns;
        changed = if moved then w.changed ++ f ∷ [] else w.changed;
        provenance = observe report f v w.provenance;
      }

  -- A status that the stored one does not lead to.
  abbrev pub is_stale : String → Value F → Work F → Bool
  is_stale f v w =
      (f == "status")
      && not (status_can_transition (text_of (lookup "status" w.columns)) (text_of (some v)))

  -- A name from a report without a symbol, for an issue that has one.
  abbrev pub keeps_name : Bool → Report F → String → Work F → Bool
  keeps_name created report f w =
      (f == "company")
      && (not created
          && (not (is_empty (text_of (lookup "symbol" w.columns)))
              && is_unset (lookup "symbol" report.row)))

  -- The body of the loop, at a value that is not blank.
  unfoldable pub write_value : Bool → Report F → String → Value F → Work F → Work F
  unfolding write_field observe
  write_value created report f v w =
      if is_stale f v w
      then w
      else if keeps_name created report f w
      then record w { provenance = observe report f v w.provenance }
      else write_field report f v w

  abbrev pub write_known : Bool → Report F → String → Option (Value F) → Work F → Work F
  write_known created report f none w = w
  write_known created report f (some v) w =
      if is_blank v then w else write_value created report f v w

  -- The loop over the fields.
  unfoldable pub upsert : Bool → Report F → List String → Work F → Work F
  unfolding write_value
  upsert created report [] w = w
  upsert created report (f ∷ fs) w =
      upsert created report fs (write_known created report f (lookup f report.row) w)

-- `a or b` of texts
abbrev pub or_text : String → String → String
or_text a b = if is_empty a then b else a

-- `external_key`
unfoldable pub external_key :
    {F : Type 0} → (String → String) → (String → String) → Dict (Value F) → String × String
external_key lower strip row =
    let get : String → String = λ k. text_of (lookup k row) in
    if lower (get "country") == "india"
    then ("IN:", lower (strip (or_text (get "symbol") (get "company"))))
    else ("US:", lower (strip (or_text (get "cik") (or_text (get "symbol") (get "company")))))
