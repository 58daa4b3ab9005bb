-- ===== src/Similarity.antt =====
-- app/services/similarity.py: the listed issues that are nearest to a target, in standardised features.
-- `pstdev` and the square root are parameters; the latest performance of an issue is an argument.
pub mod Close
mod Tests
use ipointel.Base.{
  ℕ, ◌+◌, ◌-◌, ◌*◌, ◌/◌, String, Bool, true, false, not, ◌&&◌, ◌||◌, Option, none, some, List, [],
  ◌∷◌, ◌++◌, map, ltb, leb, ◌==◌, if◌then◌else◌, is_some, length, filter, sort_by, take, zero, suc,
}
use ipointel.Runtime.{Runtime}
use ipointel.Runtime.Order.{num, lt, eq, nonzero, truthy, or_else}
use ipointel.Ipo.{Ipo}
use ipointel.Market.{map_option, return_if}
use ipointel.Walkforward.{sum, square}

pub data Feature : Type 0 where
  issue_size_m growth_pct margin_pct ps_multiple total_sub : Feature

-- `FEATURES`
abbrev pub features : List Feature
features = issue_size_m ∷ growth_pct ∷ margin_pct ∷ ps_multiple ∷ total_sub ∷ []

pub data Strength : Type 0 where
  close moderate weak : Strength

pub data Quality : Type 0 where
  strong_match moderate_match weak_match : Quality

module _ (py : Runtime) (pstdev : List py.F → py.F) (sqrt : py.F → py.F) where
  open py use {F, dec, add, sub, mul, div, round, mean}
  open py use {leb as leb_f}

  -- `a / b * 100 if a is not None and b`, and `a * b if a and b`, and `a / b if a and b`
  abbrev pub share_pct : Option F → Option F → Option F
  share_pct (some a) (some b) =
      if truthy py (some b) then some (mul (div a b) (num py 100)) else none
  share_pct _ _ = none

  abbrev pub product : Option F → Option F → Option F
  product (some a) (some b) =
      if truthy py (some a) && truthy py (some b) then some (mul a b) else none
  product _ _ = none

  abbrev pub quotient : Option F → Option F → Option F
  quotient (some a) (some b) =
      if truthy py (some a) && truthy py (some b) then some (div a b) else none
  quotient _ _ = none

  -- `_features`
  unfoldable pub feature_of : Ipo F → Feature → Option F
  feature_of ipo issue_size_m = ipo.issue_size_m
  feature_of ipo growth_pct = return_if py ipo.revenue_m ipo.revenue_prev_m
  feature_of ipo margin_pct = share_pct ipo.ebitda_m ipo.revenue_m
  feature_of ipo ps_multiple =
      quotient (product (or_else py ipo.final_price ipo.price_high) ipo.post_issue_shares_m)
        ipo.revenue_m
  feature_of ipo total_sub = ipo.total_sub

  abbrev pub values : (Ipo F → Option F) → List (Ipo F) → List F
  values get [] = []
  values get (c ∷ rows) =
      let rest = values get rows in elim (get c) [ none ↦ rest | some v ↦ v ∷ rest ]

  -- `stats.get(f)`: mean and deviation, from five values on
  unfoldable pub stats : List (Ipo F) → Feature → Option (F × F)
  unfolding feature_of
  stats rows f =
      let vals = values (λ c. feature_of c f) rows in
      let s = pstdev vals in
      if ltb (length vals) 5 then none else some (mean vals, if nonzero py s then s else num py 1)

  unfoldable pub usable_features : Ipo F → List (Ipo F) → List Feature
  unfolding stats feature_of
  usable_features target rows =
      filter (λ f. is_some (stats rows f) && is_some (feature_of target f)) features

  -- A row of `scored`.
  pub record Scored : Type 0 where
    pub adjusted : F
    pub dist : F
    pub dims : List Feature
    pub candidate : Ipo F

  -- The squared difference of two standardised values.
  abbrev pub gap : Option (F × F) → Option F → Option F → F
  gap (some (m, s)) (some c) (some t) = square py (sub (div (sub c m) s) (div (sub t m) s))
  gap _ _ _ = num py 0

  unfoldable pub distance : Ipo F → List (Ipo F) → Ipo F → List Feature → F
  distance target rows c dims = sqrt (
      div (sum py (map (λ f. gap (stats rows f) (feature_of c f) (feature_of target f)) dims))
        (num py (length dims)))

  -- The row of a candidate: none with fewer than two features in common, or too far away.
  unfoldable pub score_one : Ipo F → List (Ipo F) → List Feature → Ipo F → List Scored
  unfolding distance
  score_one target rows usable c =
      let dims = filter (λ f. is_some (feature_of c f)) usable in
      let dist = distance target rows c dims in
      let missing = length usable - length dims in
      let adjusted = mul dist (add (num py 1) (mul (dec 25 2) (num py missing))) in
      if ltb (length dims) 2
      then []
      else if lt py (num py 2) adjusted
      then []
      else record { adjusted = adjusted; dist = dist; dims = dims; candidate = c } ∷ []

  unfoldable pub score_all : Ipo F → List (Ipo F) → List Feature → List (Ipo F) → List Scored
  unfolding score_one
  score_all target rows usable [] = []
  score_all target rows usable (c ∷ cs) =
      score_one target rows usable c ++ score_all target rows usable cs

  -- the order of the key `(adjusted, -dims)`
  abbrev pub key_le : Scored → Scored → Bool
  key_le a b =
      lt py a.adjusted b.adjusted
      || (eq py a.adjusted b.adjusted && leb (length b.dims) (length a.dims))

  -- An entry of `matches`.
  pub record Match : Type 0 where
    pub ipo_id : ℕ
    pub distance : F
    pub adjusted_distance : F
    pub matched_on : List Feature
    pub dims_missing : ℕ
    pub match_strength : Strength
    pub listing_return_pct : Option F

  pub record Aggregate : Type 0 where
    pub n_with_return : ℕ
    pub mean_listing_return_pct : F
    pub median_listing_return_pct : Option F
    pub success_rate_pct : F

  pub record Found : Type 0 where
    pub available : Bool
    pub match_quality : Option Quality
    pub features_used : List Feature
    pub matches : List Match
    pub aggregate : Option Aggregate

  module _ (return_of : ℕ → Option F) where
    unfoldable pub match_of : List Feature → Scored → Match
    match_of usable s = record {
      ipo_id = s.candidate.id;
      distance = round s.dist 3;
      adjusted_distance = round s.adjusted 3;
      matched_on = s.dims;
      dims_missing = length usable - length s.dims;
      match_strength =
          if leb_f s.adjusted (dec 75 2)
          then close
          else if leb_f s.adjusted (dec 125 2)
          then moderate
          else weak;
      listing_return_pct = map_option (λ r. round r 1) (return_of s.candidate.id);
    }

    abbrev pub returns : List Match → List F
    returns [] = []
    returns (m ∷ ms) =
        let rest = returns ms in elim m.listing_return_pct [ none ↦ rest | some r ↦ r ∷ rest ]

    abbrev pub nth : List F → ℕ → Option F
    nth [] i = none
    nth (x ∷ xs) zero = some x
    nth (x ∷ xs) (suc i) = nth xs i

    unfoldable pub aggregate_of : List F → Option Aggregate
    aggregate_of [] = none
    aggregate_of (r ∷ rs) =
        let n = length (r ∷ rs) in
        some (record {
          n_with_return = n;
          mean_listing_return_pct = round (mean (r ∷ rs)) 1;
          median_listing_return_pct =
              map_option (λ x. round x 1) (nth (sort_by leb_f (r ∷ rs)) (n / 2));
          success_rate_pct =
              round
                (mul (div (num py (length (filter (λ x. lt py (num py 0) x) (r ∷ rs)))) (num py n))
                  (num py 100))
                1;
        })

    -- `matches[0]["dims_used"] >= 4`, if there is a match
    abbrev pub first_is_full : List Match → Bool
    first_is_full [] = false
    first_is_full (m ∷ ms) = leb 4 (length m.matched_on)

    unfoldable pub find_similar : Ipo F → ℕ → List (Ipo F) → Found
    unfolding usable_features score_all match_of aggregate_of
    find_similar target k candidates =
        let rows = filter (λ c. not (c.id == target.id)) candidates in
        let usable = usable_features target rows in
        let top = take k (sort_by key_le (score_all target rows usable rows)) in
        let found = map (match_of usable) top in
        if ltb (length usable) 2
        then record {
          available = false;
          match_quality = none;
          features_used = [];
          matches = [];
          aggregate = none;
        }
        else record {
          available = true;
          match_quality = some (
              if first_is_full found
              then strong_match
              else if leb 3 (length usable)
              then moderate_match
              else weak_match);
          features_used = usable;
          matches = found;
          aggregate = aggregate_of (returns found);
        }
