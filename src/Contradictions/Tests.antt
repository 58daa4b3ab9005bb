-- ===== src/Contradictions/Tests.antt =====
-- Two sources that disagree on a price, and the theorem at them.
use ipointel.Base.{
  String, ◌≡◌, refl, false, Option, some, List, [], ◌∷◌, All, length, if◌then◌else◌,
}
use text.Mathlib.Text.{◌==◌}
use ipointel.Base.Int.{ℤ, pos, ◌-ℤ◌}
use ipointel.Runtime.Fixed.{fixed, fixed_div, fixed_dec}
use ipointel.Pipeline.Sources.{Provenance}
use ipointel.Contradictions.{
  cross_source, over_fields, by_field, add_to_field, pairs, against, numeric_rows, row_if,
}
use ipointel.Contradictions.Sound.{IsReal, cross_source-IsReal}

abbrev report : String → String → Provenance
report source value = record {
  ipo_id = 7;
  field_name = "price_high";
  source_name = source;
  source_url = source;
  source_tier = 1;
  observed_value = value;
  observed_at = 100;
  is_conflict = false;
}

abbrev numeric : String → Option ℤ
numeric s = some (if s == "100" then pos 100_000_000 else pos 120_000_000)

abbrev reports : List Provenance
reports = report "NSE" "100" ∷ report "SEC" "120" ∷ []

one_found : length (cross_source fixed numeric reports) ≡ 1
unfolding cross_source over_fields by_field add_to_field pairs against numeric_rows row_if ◌-ℤ◌
    fixed_div fixed_dec
one_found = refl

cross_source-IsReal_example : All (IsReal fixed numeric) (cross_source fixed numeric reports)
cross_source-IsReal_example = cross_source-IsReal fixed numeric reports
