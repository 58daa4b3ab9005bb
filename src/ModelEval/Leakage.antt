-- ===== src/ModelEval/Leakage.antt =====
-- No look at data from after the listing: what was published later, or under no point-in-time rule,
-- does not reach a production dataset.
use ipointel.Base.{
  ℕ, ◌≡◌, refl, ap, String, Bool, true, false, List, [], ◌∷◌, ◌++◌, arith, filter, All, All-filter,
  filter-append, filter_none,
}
use ipointel.Base.Text.{Chars}
use ipointel.Runtime.{Runtime}
use ipointel.Ipo.{Ipo}
use ipointel.ModelEval.{features_for, features_from}
use ipointel.ModelEval.Available.{
  Observation, production, ltb_text, is_point_in_time, is_filled, is_admissible, latest_available,
  observations_of,
}

module _ {F : Type 0} where
  -- An observation that a prediction dated `as_of` must not know.
  pub data IsUnavailable (as_of : Chars) (o : Observation F) : Type 0 where
    unpublished : o.available_at ≡ [] → IsUnavailable as_of o
    later : ltb_text as_of o.available_at ≡ true → IsUnavailable as_of o
    other_rule : is_point_in_time o.availability_rule ≡ false → IsUnavailable as_of o

  refused :
      (as_of : Chars) (o : Observation F)
      → IsUnavailable as_of o
      → is_admissible o as_of production ≡ false
  unfolding is_admissible
  refused as_of o (unpublished e) = ground (arith, e, ap is_filled e)
  refused as_of o (later e) = ground arith
  refused as_of o (other_rule e) = ground arith

  all_refused :
      (as_of : Chars) (late : List (Observation F))
      → All (IsUnavailable as_of) late
      → All (λ o. is_admissible o as_of production ≡ false) late
  all_refused as_of [] h = tt
  all_refused as_of (o ∷ late) h = (refused as_of o h.0, all_refused as_of late h.1)

  module _ (as_of : Chars) (before late after : List (Observation F))
      (h : All (IsUnavailable as_of) late) where
    -- The unavailable rows in the middle of a table are filtered out.
    filtered :
        (key : Observation F → Bool)
        → let test = λ (o : Observation F). is_admissible o as_of production in
          filter test (filter key (before ++ (late ++ after)))
          ≡ filter test (filter key (before ++ after))
    filtered key = simp (
      filter-append,
      filter_none _ (filter key late) (All-filter _ key late (all_refused as_of late h)),
    )

    latest_available_late :
        (ipo : ℕ) (field : String)
        → latest_available (observations_of ipo field (before ++ (late ++ after))) as_of production
          ≡ latest_available (observations_of ipo field (before ++ after)) as_of production
    unfolding latest_available
    latest_available_late ipo field = rw (filtered _) refl

-- The features of an issue in the production dataset are the same whether or not the table also holds
-- observations that were published after the day of the prediction, were never published, or stand
-- under a rule that is not point-in-time, wherever they stand in the table and whatever they say.
pub features_for_late :
    (py : Runtime) (log : py.F → py.F) (is_spac_name : String → Bool) (ipo : Ipo py.F)
    (before late after : List (Observation py.F)) (as_of : Chars) (recent : ℕ)
    → All (IsUnavailable as_of) late
    → features_for py log is_spac_name ipo (before ++ (late ++ after)) as_of production recent
      ≡ features_for py log is_spac_name ipo (before ++ after) as_of production recent
unfolding features_for
features_for_late py log is_spac_name ipo before late after as_of recent h =
    ap (λ latest. features_from py log is_spac_name ipo latest recent)
      (λ i field. latest_available_late as_of before late after h ipo.id field i)
