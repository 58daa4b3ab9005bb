-- ===== src/Pipeline/Tests.antt =====
-- Flags, provenance and events on small inputs, and the theorems at them.
use ipointel.Pipeline.Upsert.{
  Value, words, number, Work, Report, upsert, upsert_fields, external_key,
}
use ipointel.Pipeline.Lifecycle.{IsKept, upsert-IsKept}
use ipointel.Identity.Status.{rank, status_can_transition}
use ipointel.Base.{arith}
use ipointel.Base.{
  ℕ, ◌*◌, String, ◌≡◌, refl, true, false, Option, none, some, List, [], ◌∷◌, is_some,
}
use ipointel.Base.Text.{codes}
use ipointel.Base.Int.{ℤ, pos}
use ipointel.Runtime.Fixed.{fixed}
use ipointel.Ipo.Sample.{sparse}
use ipointel.Email.Alerts.{Snapshot}
use ipointel.Pipeline.{event_stage, score_moved}
use ipointel.Pipeline.Events.{is_structural, event_stage_moved}
use ipointel.Pipeline.Sources.{Provenance}

abbrev flags : List String
flags = "date: old" ∷ "other" ∷ []

abbrev scored : ℕ → Snapshot ℤ
scored n = record {
  id = n;
  overall_score = pos (n * 1_000_000);
  listing_score = pos 60_000_000;
  long_term_score = pos 60_000_000;
  confidence = pos 80_000_000;
  recommendation = codes "WATCH";
  valuation_label = codes "FAIR";
}

-- A tick of the QIB subscription.
event_stage_moved_example :
    let stage =
      event_stage fixed false ("qib_sub" ∷ []) "" none sparse (some (scored 70)) (scored 71) in
    (is_structural false ("qib_sub" ∷ []) ≡ true → is_some stage ≡ true)
    × (is_structural false ("qib_sub" ∷ []) ≡ false
        → false ≡ false
        → is_some stage ≡ score_moved fixed (some (scored 70)) (scored 71))
event_stage_moved_example =
    event_stage_moved fixed false ("qib_sub" ∷ []) "" none sparse (some (scored 70)) (scored 71)

abbrev report : String → String → Provenance
report source value = record {
  ipo_id = 7;
  field_name = "price_high";
  source_name = source;
  source_url = source;
  source_tier = 1;
  observed_value = value;
  observed_at = 100;
  is_conflict = false;
}

abbrev numeric : String → Option ℤ
numeric s = some (pos 100_000_000)

-- A listed issue with a symbol, and a late report that it is open.
abbrev listed : Work ℤ
listed = record {
  columns = ("status", words "Listed") ∷ ("symbol", words "ACME") ∷ [];
  changed = [];
  provenance = [];
}

abbrev late_report : Report ℤ
late_report = record {
  row =
      ("company", words "Acme Ltd.")
      ∷ ("status", words "Open")
      ∷ ("price_low", number (pos 1))
      ∷ [];
  source_name = "NSE";
  source_url = "";
  source_tier = 1;
}

abbrev said : Value ℤ → String
said v = "x"

abbrev no_number : String → Option ℤ
no_number s = none

-- The price is written; the name and the status stay.
written :
    (upsert fixed no_number said 100 7 false late_report upsert_fields listed).changed
    ≡ "price_low" ∷ []
unfolding upsert status_can_transition rank
written = refl

kept : IsKept fixed no_number said 100 7 60 listed
unfolding rank
kept = record { unique = tt; ranked = omega arith }

upsert-IsKept_example :
    IsKept fixed no_number said 100 7 60
      (upsert fixed no_number said 100 7 false late_report upsert_fields listed)
upsert-IsKept_example =
    upsert-IsKept fixed no_number said 100 7 60 false late_report upsert_fields listed kept

indian_key :
    external_key {F = ℤ}
      (λ s. s)
      (λ s. s)
      (("country", words "india") ∷ ("company", words "Acme") ∷ [])
    ≡ ("IN:", "Acme")
unfolding external_key
indian_key = refl
