-- ===== src/Pipeline/Events.antt =====
-- Which updates of an IPO produce a score snapshot.
use ipointel.Base.{
  String, ◌≡◌, refl, Bool, true, false, not, ◌&&◌, ◌||◌, Option, none, some, List, arith, is_some,
  if◌then◌else◌,
}
use ipointel.Runtime.{Runtime}
use ipointel.Ipo.{Ipo}
use ipointel.Email.Alerts.{Snapshot}
use text.Mathlib.Text.{◌==◌}
use ipointel.Runtime.Order.{truthy}
use ipointel.Pipeline.{
  ipo_discovered, status_changed, final_pre_listing, price_band_set, anchor_data_added,
  subscription_update, is_terminal, Stage, has, event_stage, score_stage, score_moved,
}

-- The record is new, or its status, filing or price band changed.
abbrev pub is_structural : Bool → List String → Bool
is_structural created changed =
    created
    || (has "status" changed
        || (has "filing_url" changed || (has "price_low" changed || has "price_high" changed)))

stage_chain :
    (created status terminal final fresh filing low high anchor subs moved : Bool) (named : Stage)
    (rest : Option Stage)
    → is_some rest ≡ moved
    → let stage =
        if created
        then some ipo_discovered
        else if status && terminal
        then some status_changed
        else if final && fresh
        then some final_pre_listing
        else if filing
        then some named
        else if low || high
        then some price_band_set
        else if status
        then some status_changed
        else if anchor
        then (if moved then some anchor_data_added else none)
        else if subs
        then (if moved then some subscription_update else none)
        else rest in
      ((created || (status || (filing || (low || high)))) ≡ true → is_some stage ≡ true)
      × ((created || (status || (filing || (low || high)))) ≡ false
          → final ≡ false
          → is_some stage ≡ moved)
stage_chain created status terminal final fresh filing low high anchor subs moved named rest e =
    ((λ h. ground arith), λ h k. ground arith)

module _ (py : Runtime) where
  score_stage_moved :
      (last : Option (Snapshot py.F)) (score : Snapshot py.F)
      → is_some (score_stage py last score) ≡ score_moved py last score
  unfolding score_stage score_moved
  score_stage_moved none score = refl
  score_stage_moved (some last) score = ground arith

  -- A new record, or a change of the status, the filing or the price band, always produces a
  -- snapshot; without these and without a change of the final price, there is one exactly if the
  -- score moved.
  pub event_stage_moved :
      (created : Bool) (changed : List String) (filing : String) (price : Option py.F)
      (ipo : Ipo py.F) (last : Option (Snapshot py.F)) (score : Snapshot py.F)
      → let stage = event_stage py created changed filing price ipo last score in
        (is_structural created changed ≡ true → is_some stage ≡ true)
        × (is_structural created changed ≡ false
            → has "final_price" changed ≡ false
            → is_some stage ≡ score_moved py last score)
  unfolding event_stage
  event_stage_moved created changed filing price ipo last score =
      stage_chain created (has "status" changed) (is_terminal py ipo.status)
        (has "final_price" changed) (not (truthy py price) && not (py.lower ipo.status == "listed"))
        (has "filing_url" changed) (has "price_low" changed) (has "price_high" changed)
        (has "anchor_quality" changed)
        (has "qib_sub" changed
          || (has "nii_sub" changed || (has "retail_sub" changed || has "total_sub" changed)))
        (score_moved py last score) _ (score_stage py last score) (score_stage_moved last score)
