-- ===== src/Scoring/Reasons.antt =====
-- The reasons account for the confidence: with none given, nothing is missing and nothing is taken off.
use ipointel.Base.{
  ℕ, ◌≡◌, refl, inl, inr, Bool, true, false, not, Option, none, some, List, [], ◌∷◌, ◌++◌, arith,
  is_empty, is_some, length, leb, ◌==◌, Bool-cases,
}
use ipointel.Runtime.{Runtime}
use ipointel.Runtime.Order.{num, lt}
use ipointel.Ipo.{Ipo}
use ipointel.Scoring.Confidence.{
  Reason, no_price, no_regime, stale, conflicting, when, confidence_reasons, fields_present,
  is_primary_source_url, problems, freshness_penalty, financial_reasons, financials_missing,
  filing_reasons, share_reasons, structure_reasons, flag_reasons, label_missing, structure_known,
  present,
}

nil_parts {ℓ} : {A : Type ℓ} (xs ys : List A) → xs ++ ys ≡ [] → (xs ≡ []) × (ys ≡ [])
nil_parts [] ys h = (refl, h)
nil_parts (x ∷ xs) ys h = cc

nil_both {ℓ} : {A : Type ℓ} (xs ys : List A) → xs ≡ [] → ys ≡ [] → xs ++ ys ≡ []
nil_both [] ys h k = k
nil_both (x ∷ xs) ys h k = cc

module _ (py : Runtime) where
  open py use {F}

  financial_reasons_nil : (ls : List _) → financial_reasons py ls ≡ [] → ls ≡ []
  unfolding financial_reasons
  financial_reasons_nil [] h = refl
  financial_reasons_nil (l ∷ ls) h = elim (Bool-cases (leb 4 (length (l ∷ ls)))) [
    | inl many ↦ cc (rw many at h)
    | inr few ↦ cc (rw few at h)
  ]

  label_missing_nil : (l : _) (v : Option F) → label_missing py l v ≡ [] → present v ≡ 1
  unfolding label_missing
  label_missing_nil l none h = cc
  label_missing_nil l (some v) h = refl

  filing_reasons_nil :
      (url : _)
      → filing_reasons py url ≡ []
      → (is_empty url ≡ false) × (is_primary_source_url py url ≡ true)
  unfolding filing_reasons
  filing_reasons_nil url h = (ground arith, ground arith)

  flag_reasons_nil : (fs : List _) → flag_reasons py fs ≡ [] → fs ≡ []
  unfolding flag_reasons
  flag_reasons_nil [] h = refl
  flag_reasons_nil (f ∷ fs) h = cc

  structure_reasons_nil : (ipo : Ipo F) → structure_reasons py ipo ≡ [] → structure_known py ipo ≡ 1
  unfolding structure_reasons
  structure_reasons_nil ipo h = ground arith

  share_reasons_nil :
      (ipo : Ipo F) → share_reasons py ipo ≡ [] → present ipo.post_issue_shares_m ≡ 1
  unfolding share_reasons
  share_reasons_nil ipo h = ground arith

  when_nil : (b : Bool) (r : Reason) → when b r ≡ [] → b ≡ false
  when_nil b r h = ground arith

  conflicts_nil : (n : ℕ) → when (not (n == 0)) (conflicting n) ≡ [] → n ≡ 0
  conflicts_nil n h = ground arith

  present_of_known : (v : Option F) → not (is_some v) ≡ false → present v ≡ 1
  present_of_known v h = ground arith

  financials_present :
      (ipo : Ipo F)
      → financials_missing py ipo ≡ []
      → (present ipo.revenue_m ≡ 1)
        × (present ipo.revenue_prev_m ≡ 1)
        × (present ipo.net_income_m ≡ 1)
        × (present ipo.cfo_m ≡ 1)
        × (present ipo.debt_m ≡ 1)
        × (present ipo.cash_m ≡ 1)
  unfolding financials_missing
  financials_present ipo h =
      let (a, h1) = nil_parts _ _ h in
      let (b, h2) = nil_parts _ _ h1 in
      let (c, h3) = nil_parts _ _ h2 in
      let (d, h4) = nil_parts _ _ h3 in
      let (e, f) = nil_parts _ _ h4 in
      (
        label_missing_nil _ ipo.revenue_m a,
        label_missing_nil _ ipo.revenue_prev_m b,
        label_missing_nil _ ipo.net_income_m c,
        label_missing_nil _ ipo.cfo_m d,
        label_missing_nil _ ipo.debt_m e,
        label_missing_nil _ ipo.cash_m f,
      )

  -- Where `confidence_reasons` gives no reason, nothing holds the confidence back: all ten fields are
  -- there, the filing is on a primary host, no data flag is a problem, no field conflicts, and the
  -- record has no freshness penalty.
  pub no_reasons :
      (now : ℕ) (ipo : Ipo F) (conflicts : ℕ)
      → confidence_reasons py now ipo conflicts ≡ []
      → (fields_present py ipo ≡ 10)
        × (is_primary_source_url py ipo.filing_url ≡ true)
        × (problems ipo.data_flags ≡ [])
        × (conflicts ≡ 0)
        × (lt py (num py 0) (freshness_penalty py now ipo) ≡ false)
  unfolding confidence_reasons fields_present
  no_reasons now ipo conflicts h =
      let (filing, h1) = nil_parts (filing_reasons py ipo.filing_url) _ h in
      let (price, h2) = nil_parts (when (not (is_some ipo.price_high)) no_price) _ h1 in
      let (financial, h3) = nil_parts (financial_reasons py (financials_missing py ipo)) _ h2 in
      let (shares, h4) = nil_parts (share_reasons py ipo) _ h3 in
      let (structure, h5) = nil_parts (structure_reasons py ipo) _ h4 in
      let (regime, h6) = nil_parts (when (not (is_some ipo.market_regime)) no_regime) _ h5 in
      let (fresh, h7) =
        nil_parts (when (lt py (num py 0) (freshness_penalty py now ipo)) stale) _ h6 in
      let (agreed, flagless) =
        nil_parts (when (not (conflicts == 0)) (conflicting conflicts)) _ h7 in
      let known = financials_present ipo (financial_reasons_nil _ financial) in
      let url = filing_reasons_nil ipo.filing_url filing in
      let price_known = present_of_known ipo.price_high (when_nil _ _ price) in
      let share_count = share_reasons_nil ipo shares in
      let terms = structure_reasons_nil ipo structure in
      (
        rw url.0 (omega (arith, known, price_known, share_count, terms)),
        url.1,
        flag_reasons_nil _ flagless,
        conflicts_nil conflicts agreed,
        when_nil _ _ fresh,
      )
