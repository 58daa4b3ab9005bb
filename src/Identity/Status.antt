-- ===== src/Identity/Status.antt =====
-- The lifecycle vocabulary of app/services/identity.py, and what a feed can do to a status.
use mathlib.Core.List.{foldl}
use text.Mathlib.Text.{◌==◌}
use ipointel.Base.{
  ℕ, ◌≤◌, String, ◌≡◌, refl, ◌∙◌, ◌⊎◌, inl, inr, Bool, true, false, ◌||◌, List, [], ◌∷◌, arith, leb,
  is_empty, Bool-cases, eq_iff, if◌then◌else◌,
}

-- `STATUS_RANK.get(status, 0)`
unfoldable pub rank : String → ℕ
rank s =
    if s == "Filed"
    then 10
    else if s == "Upcoming"
    then 20
    else if s == "Open"
    then 30
    else if s == "Closed"
    then 40
    else if s == "Priced"
    then 50
    else if s == "Listed"
    then 60
    else if s == "Withdrawn"
    then 70
    else if s == "Not IPO"
    then 80
    else 0

-- `status_can_transition`; None and the empty text are alike to it.
unfoldable pub status_can_transition : String → String → Bool
status_can_transition current new =
    if is_empty new
    then false
    else if is_empty current || current == new
    then true
    else leb (rank current) (rank new)

-- The status after a feed names `new`, as `upsert_ipo` and the past-issues pass guard their writes.
unfoldable pub feed : String → String → String
unfolding status_can_transition
feed current new = if status_can_transition current new then new else current

-- The statuses of a feed one after another.
unfoldable pub feed_all : String → List String → String
feed_all = foldl feed

-- No report ranks above `top`, and a status is among the reports.
abbrev pub AllBelow : ℕ → List String → Type 0
AllBelow top [] = Unit
AllBelow top (r ∷ rs) = (rank r ≤ top) × AllBelow top rs

abbrev pub IsReported : String → List String → Type 0
IsReported s [] = ⊥
IsReported s (r ∷ rs) = (s ≡ r) ⊎ IsReported s rs

rank-empty : (s : String) → is_empty s ≡ true → rank s ≡ 0
unfolding rank
rank-empty String.[] h = refl
rank-empty (String.◌∷◌ c s) h = cc

-- One report never lowers the rank.
pub rank-feed : (current new : String) → rank current ≤ rank (feed current new)
unfolding feed
rank-feed current new = elim (Bool-cases (is_empty current)) [
  | inl fresh ↦ rw (rank-empty current fresh) (omega arith)
  | inr known ↦ ground (arith, eq_iff current new)
]

-- A report that may be applied ranks at most as high as the status after it.
rank-feed_new : (current new : String) → rank new ≤ rank (feed current new)
unfolding feed
rank-feed_new current new = elim (Bool-cases (is_empty new)) [
  | inl nothing ↦ rw (rank-empty new nothing) (omega arith)
  | inr something ↦ ground (arith, eq_iff current new)
]

-- However stale and however ordered the reports of the feeds are, the status that they leave ranks
-- as high as the one before them and as high as each of them: a listed issue is never reopened, and
-- the latest stage that any feed has seen is not lost.
pub rank-feed_all :
    (current : String) (reports : List String)
    → (rank current ≤ rank (feed_all current reports))
      × AllBelow (rank (feed_all current reports)) reports
unfolding feed_all
rank-feed_all current [] = (omega arith, tt)
rank-feed_all current (new ∷ reports) =
    let rest = rank-feed_all (feed current new) reports in
    (
      omega (arith, rank-feed current new, rest.0),
      (omega (arith, rank-feed_new current new, rest.0), rest.1),
    )

-- A status that a feed leaves is the old one or one that was reported.
pub feed_all_source :
    (current : String) (reports : List String)
    → (feed_all current reports ≡ current) ⊎ IsReported (feed_all current reports) reports
unfolding feed_all
feed_all_source current [] = inl refl
feed_all_source current (new ∷ reports) = elim (feed_all_source (feed current new) reports) [
  | inl kept ↦ elim (one (status_can_transition current new) refl) [
    | inl same ↦ inl (kept ∙ same)
    | inr taken ↦ inr (inl (kept ∙ taken))
  ]
  | inr later ↦ inr (inr later)
]
  where
    one :
        (b : Bool)
        → status_can_transition current new ≡ b
        → (feed current new ≡ current) ⊎ (feed current new ≡ new)
    one true e = inr (unfold feed in rw e)
    one false e = inl (unfold feed in rw e)
