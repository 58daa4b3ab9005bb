-- ===== src/Pipeline.antt =====
-- app/services/pipeline.py: the data flags of a record, the provenance of its fields, the index of
-- issuer names, and which event a new score snapshot documents.
pub mod Flags
pub mod Events
pub mod Sources
pub mod NameIndex
pub mod Upsert
pub mod Lifecycle
mod Tests
use ipointel.Base.{
  ℕ, String, Bool, true, false, not, ◌&&◌, ◌||◌, Option, none, some, List, [], ◌∷◌, ◌++◌, any,
  is_empty, is_some, leb, if◌then◌else◌,
}
use text.Mathlib.Text.{◌==◌}
use ipointel.Base.Text.{Chars, codes, begins, same}
use ipointel.Runtime.{Runtime}
use ipointel.Runtime.Order.{truthy}
use ipointel.Ipo.{Ipo}
use ipointel.Identity.Labels.{sanitize_label}
use ipointel.Email.Alerts.{Snapshot, size}

-- `str(f).startswith(prefix)`
abbrev pub starts_with : String → String → Bool
starts_with prefix f = begins (codes f) (codes prefix)

unfoldable pub without_prefix : String → List String → List String
without_prefix prefix [] = []
without_prefix prefix (f ∷ fs) =
    let rest = without_prefix prefix fs in if starts_with prefix f then rest else f ∷ rest

-- equality of lists of texts
unfoldable pub same_list : List String → List String → Bool
same_list [] [] = true
same_list (f ∷ fs) (g ∷ gs) = (f == g) && same_list fs gs
same_list _ _ = false

-- `if flag: flags.append(flag)`
abbrev pub append_if : Option String → List String → List String
append_if none fs = fs
append_if (some flag) fs = if is_empty flag then fs else fs ++ flag ∷ []

-- `_set_flag`: the data flags after it, and whether they changed
unfoldable pub set_flag : String → Option String → List String → List String × Bool
set_flag prefix flag fs =
    let fs' = append_if flag (without_prefix prefix fs) in
    if same_list fs' fs then (fs, false) else (fs', true)

abbrev pub has : String → List String → Bool
has x fs = any (λ f. f == x) fs

pub data Stage : Type 0 where
  ipo_discovered status_changed final_pre_listing filing_ingested filing_amendment : Stage
  price_band_set anchor_data_added subscription_update recommendation_changed : Stage
  material_score_change : Stage

module _ (py : Runtime) where
  open py use {F, sub, div, leb, dec}

  -- `abs(a - b) >= 0.1`
  abbrev pub tenth_apart : F → F → Bool
  tenth_apart a b = leb (dec 1 1) (size py (sub a b))

  abbrev pub figures_moved : Snapshot F → Snapshot F → Bool
  figures_moved last score =
      tenth_apart last.overall_score score.overall_score
      || (tenth_apart last.listing_score score.listing_score
          || (tenth_apart last.long_term_score score.long_term_score
              || tenth_apart last.confidence score.confidence))

  abbrev pub advice_moved : Snapshot F → Snapshot F → Bool
  advice_moved last score =
      not (same (sanitize_label last.recommendation) (sanitize_label score.recommendation))

  -- `_score_moved`
  unfoldable pub score_moved : Option (Snapshot F) → Snapshot F → Bool
  score_moved none score = true
  score_moved (some last) score = if advice_moved last score then true else figures_moved last score

  -- the last two tests of `_event_stage`
  unfoldable pub score_stage : Option (Snapshot F) → Snapshot F → Option Stage
  score_stage none score = some material_score_change
  score_stage (some last) score =
      if advice_moved last score
      then some recommendation_changed
      else if figures_moved last score
      then some material_score_change
      else none

  abbrev pub is_terminal : String → Bool
  is_terminal s = (s == "Listed") || ((s == "Withdrawn") || (s == "Not IPO"))

  -- `_event_stage`; the filing and the price are those before the update
  unfoldable pub event_stage :
      Bool
      → List String
      → String
      → Option F
      → Ipo F
      → Option (Snapshot F)
      → Snapshot F
      → Option Stage
  unfolding score_moved score_stage
  event_stage created changed filing price ipo last score =
      if created
      then some ipo_discovered
      else if has "status" changed && is_terminal ipo.status
      then some status_changed
      else if has "final_price" changed
          && (not (truthy py price) && not (py.lower ipo.status == "listed"))
      then some final_pre_listing
      else if has "filing_url" changed
      then some (if is_empty filing then filing_ingested else filing_amendment)
      else if has "price_low" changed || has "price_high" changed
      then some price_band_set
      else if has "status" changed
      then some status_changed
      else if has "anchor_quality" changed
      then (if score_moved last score then some anchor_data_added else none)
      else if has "qib_sub" changed
          || (has "nii_sub" changed || (has "retail_sub" changed || has "total_sub" changed))
      then (if score_moved last score then some subscription_update else none)
      else score_stage last score
