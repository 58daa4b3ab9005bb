-- ===== src/ModelEval/Available.antt =====
-- Point-in-time admission: `_admissible` and `_latest_available`.
use text.Mathlib.Text.{◌==◌ as str_eq}
use ipointel.Base.{
  ℕ, String, Bool, true, false, not, ◌&&◌, ◌||◌, Option, none, List, [], ◌∷◌, ltb, ◌==◌,
  if◌then◌else◌, is_some, filter, max_by,
}
use ipointel.Base.Text.{Chars, same}

pub data Dataset : Type 0 where
  production research : Dataset

-- `FeatureObservation`
pub record Observation (F : Type 0) : Type 0 where
  pub ipo_id : ℕ
  pub field_name : String
  pub value : Option F
  pub availability_rule : String
  pub available_at : Chars
  pub period_end : Chars

-- `s < t` and `s <= t` of texts
abbrev pub ltb_text : Chars → Chars → Bool
ltb_text s [] = false
ltb_text [] (d ∷ t) = true
ltb_text (c ∷ s) (d ∷ t) = ltb c d || (c == d && ltb_text s t)

abbrev pub leb_text : Chars → Chars → Bool
leb_text s t = not (ltb_text t s)

-- `rule in POINT_IN_TIME_RULES`, and in `RESEARCH_ONLY_RULES`
abbrev pub is_point_in_time : String → Bool
is_point_in_time rule =
    str_eq rule "prospectus_filing"
    || (str_eq rule "nse_live_feed" || str_eq rule "market_index_close")

abbrev pub is_research_only : String → Bool
is_research_only rule =
    str_eq rule "xbrl_post_ipo_comparative" || str_eq rule "first_periodic_report"

abbrev pub is_research : Dataset → Bool
is_research production = false
is_research research = true

-- the truth of a text
abbrev pub is_filled : Chars → Bool
is_filled [] = false
is_filled (c ∷ s) = true

module _ {F : Type 0} where
  unfoldable pub is_admissible : Observation F → Chars → Dataset → Bool
  is_admissible o as_of dataset =
      if not (is_some o.value)
      then false
      else if is_point_in_time o.availability_rule
      then is_filled o.available_at && leb_text o.available_at as_of
      else if is_research dataset && is_research_only o.availability_rule
      then is_filled o.period_end && leb_text o.period_end as_of
      else false

  -- the order of the key `(period_end, available_at or "")`
  abbrev pub key_le : Observation F → Observation F → Bool
  key_le a b =
      ltb_text a.period_end b.period_end
      || (same a.period_end b.period_end && leb_text a.available_at b.available_at)

  unfoldable pub value_of_latest : List (Observation F) → Option F
  value_of_latest [] = none
  value_of_latest (o ∷ ok) = (max_by key_le o ok).value

  unfoldable pub latest_available : List (Observation F) → Chars → Dataset → Option F
  unfolding value_of_latest is_admissible
  latest_available obs as_of dataset =
      value_of_latest (filter (λ o. is_admissible o as_of dataset) obs)

  -- `fin.get((ipo.id, field))` of `_financials_available`: the rows of the issue and the field, in the
  -- order of the query
  abbrev pub observations_of : ℕ → String → List (Observation F) → List (Observation F)
  observations_of ipo field rows = filter (λ o. o.ipo_id == ipo && str_eq o.field_name field) rows
