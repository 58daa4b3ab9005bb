-- ===== src/Scoring/Confidence.antt =====
-- The confidence figure of app/scoring.py and the reasons that explain it.
use text.Mathlib.Text.{◌==◌ as str_eq, starts_with}
use Prim.Native.String.{◌++◌ as str_append}
use ipointel.Base.{
  ℕ, ◌+◌, ◌-◌, ◌/◌, String, Bool, false, not, ◌||◌, Option, none, some, List, [], ◌∷◌, ◌++◌,
  leb as le_ℕ, ◌==◌, is_empty, is_some, any, length, if◌then◌else◌,
}
use ipointel.Base.Text.{ends_with}
use ipointel.Runtime.{Runtime}
use ipointel.Runtime.Order.{num, lt, truthy, minimum}
use ipointel.Ipo.{Ipo}
use ipointel.Scoring.{clamp}

abbrev pub freshness_grace_days : ℕ
freshness_grace_days = 7

-- `PRIMARY_SOURCE_HOSTS`
abbrev pub primary_source_hosts : List String
primary_source_hosts = "sec.gov" ∷ "nseindia.com" ∷ "sebi.gov.in" ∷ []

-- `host == h or host.endswith("." + h)`
unfoldable pub host_matches : String → String → Bool
host_matches host h = str_eq host h || ends_with (str_append "." h) host

-- `v not in (None, "")` of the fields that `confidence` counts, as 1 or 0
abbrev pub present {ℓ} : {A : Type ℓ} → Option A → ℕ
present none = 0
present (some a) = 1

-- The statuses at which a record can be stale.
abbrev pub is_active : String → Bool
is_active s = any (str_eq s) ("Filed" ∷ "Upcoming" ∷ "Open" ∷ "Closed" ∷ "Priced" ∷ [])

-- The data flags that count as problems.
abbrev pub is_problem : String → Bool
is_problem flag = not (starts_with flag "ipo_classification")

unfoldable pub problems : List String → List String
problems [] = []
problems (f ∷ fs) = let rest = problems fs in if is_problem f then f ∷ rest else rest

-- What `confidence_reasons` says, one constructor for each message.
pub data Reason : Type 0 where
  no_filing secondary_filing no_price no_shares no_peers no_split no_lockup no_regime stale : Reason
  -- the labels that are missing; the first from four labels on
  incomplete missing : List String → Reason
  conflicting : ℕ → Reason
  flagged : String → Reason

-- A message that is added under a test.
abbrev pub when : Bool → Reason → List Reason
when b r = if b then r ∷ [] else []

module _ (py : Runtime) where
  open py use {F, dec, add, sub, mul, div, lower, hostname}

  abbrev pub is_india : Ipo F → Bool
  is_india ipo = str_eq (lower ipo.country) "india"

  -- `is_primary_source_url`
  unfoldable pub is_primary_source_url : String → Bool
  unfolding host_matches
  is_primary_source_url url = if is_empty url then false else elim (hostname url) [
    | none ↦ false
    | some host ↦ any (host_matches (lower host)) primary_source_hosts
  ]

  -- `freshness_penalty`; a time of update after `now` counts as no days ago.
  unfoldable pub freshness_penalty : ℕ → Ipo F → F
  freshness_penalty now ipo = if not (is_active ipo.status) then num py 0 else elim ipo.updated_at [
    | none ↦ num py 0
    | some updated ↦
        let age : ℕ = (now - updated) / 86400 in
        if le_ℕ age freshness_grace_days
        then num py 0
        else minimum py (dec 12 2) (
            div (mul (dec 12 2) (num py (age - freshness_grace_days)))
              (num py (60 - freshness_grace_days)))
  ]

  -- The last of the ten fields: by country, the fresh-issue share or the lock-up.
  abbrev pub structure_known : Ipo F → ℕ
  structure_known ipo =
      if is_india ipo then present ipo.fresh_issue_pct else present ipo.lockup_days

  -- How many of the ten fields are there.
  unfoldable pub fields_present : Ipo F → ℕ
  fields_present ipo =
      present ipo.price_high
      + present ipo.revenue_m
      + present ipo.revenue_prev_m
      + present ipo.net_income_m
      + present ipo.cfo_m
      + present ipo.debt_m
      + present ipo.cash_m
      + present ipo.post_issue_shares_m
      + (if is_empty ipo.filing_url then 0 else 1)
      + structure_known ipo

  unfoldable pub flag_penalty : Ipo F → F
  unfolding problems
  flag_penalty ipo =
      minimum py (dec 28 2) (mul (num py (length (problems ipo.data_flags))) (dec 35 3))

  unfoldable pub conflict_penalty : ℕ → F
  conflict_penalty conflicts = minimum py (dec 25 2) (mul (num py conflicts) (dec 8 2))

  -- `confidence`
  unfoldable pub confidence : ℕ → Ipo F → ℕ → F
  unfolding fields_present flag_penalty conflict_penalty
  confidence now ipo conflicts =
      let complete = div (num py (fields_present ipo)) (num py 10) in
      let primary = if is_primary_source_url ipo.filing_url then dec 10 1 else dec 72 2 in
      clamp py (
        mul
          (sub
            (sub (sub (add (mul (dec 68 2) complete) (mul (dec 32 2) primary)) (flag_penalty ipo))
              (conflict_penalty conflicts))
            (freshness_penalty now ipo))
          (num py 100))

  unfoldable pub label_missing : String → Option F → List String
  label_missing label none = label ∷ []
  label_missing label (some v) = []

  unfoldable pub financials_missing : Ipo F → List String
  unfolding label_missing
  financials_missing ipo =
      label_missing "revenue" ipo.revenue_m
      ++ (label_missing "prior-year revenue" ipo.revenue_prev_m
          ++ (label_missing "net income" ipo.net_income_m
              ++ (label_missing "operating cash flow" ipo.cfo_m
                  ++ (label_missing "debt" ipo.debt_m ++ label_missing "cash" ipo.cash_m))))

  unfoldable pub financial_reasons : List String → List Reason
  financial_reasons [] = []
  financial_reasons (l ∷ ls) =
      if le_ℕ 4 (length (l ∷ ls)) then incomplete (l ∷ ls) ∷ [] else missing (l ∷ ls) ∷ []

  unfoldable pub filing_reasons : String → List Reason
  filing_reasons url =
      if is_empty url
      then no_filing ∷ []
      else when (not (is_primary_source_url url)) secondary_filing

  unfoldable pub share_reasons : Ipo F → List Reason
  share_reasons ipo =
      if not (is_some ipo.post_issue_shares_m)
      then no_shares ∷ []
      else when (not (truthy py ipo.peer_median_pe || truthy py ipo.peer_median_ps)) no_peers

  unfoldable pub structure_reasons : Ipo F → List Reason
  structure_reasons ipo =
      if is_india ipo
      then when (not (is_some ipo.fresh_issue_pct)) no_split
      else when (not (is_some ipo.lockup_days)) no_lockup

  unfoldable pub flag_reasons : List String → List Reason
  flag_reasons [] = []
  flag_reasons (f ∷ fs) = flagged f ∷ flag_reasons fs

  -- `confidence_reasons`
  unfoldable pub confidence_reasons : ℕ → Ipo F → ℕ → List Reason
  unfolding filing_reasons financial_reasons share_reasons structure_reasons flag_reasons problems
  confidence_reasons now ipo conflicts =
      filing_reasons ipo.filing_url
      ++ (when (not (is_some ipo.price_high)) no_price
          ++ (financial_reasons (financials_missing ipo)
              ++ (share_reasons ipo
                  ++ (structure_reasons ipo
                      ++ (when (not (is_some ipo.market_regime)) no_regime
                          ++ (when (lt py (num py 0) (freshness_penalty now ipo)) stale
                              ++ (when (not (conflicts == 0)) (conflicting conflicts)
                                  ++ flag_reasons (problems ipo.data_flags))))))))
