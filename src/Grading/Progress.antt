-- ===== src/Grading/Progress.antt =====
-- Every attempt of the grader settles the prediction.
use ipointel.Base.{
  ℕ, ◌+◌, ◌≤◌, String, ◌≡◌, refl, ap, ◌∙◌, subst, ◌⊎◌, inl, inr, Bool, true, false, not, ◌&&◌, ◌||◌,
  Option, none, some, List, arith, ltb, is_empty, is_some, if◌then◌else◌, Bool-cases, ltb→lt,
  lt→ltb,
}
use text.Mathlib.Text.{◌==◌}
use ipointel.Runtime.{Runtime}
use ipointel.Runtime.Order.{truthy}
use ipointel.Ipo.{Ipo}
use ipointel.Market.{Bar, Returns, return_if, windowed_returns}
use ipointel.Market.Windows.{close_truthy}
use ipointel.Grading.{
  unparseable_date, Category, Outcome, Note, Reason, graded, pending, blocked_market_data,
  invalid_forward_record, not_yet_eligible, attached, noted, classify_prediction, classify_listed,
  no_price, status_is, outcome_has_return, min_days_since_listing, note_of, attached_legacy,
  awaiting,
}
use ipointel.Grading.Grader.{
  History, Verdict, blocked, returned, block, grade, attempt, verdict_of, settle, rounded,
  listing_ts, is_nil,
}

-- The category is one that the grader attempts.
abbrev pub IsOpen : Category → Type 0
IsOpen c = (c ≡ pending) ⊎ (c ≡ blocked_market_data)

IsOpen-chain :
    (invalid done legacy listed : Bool) (r s t u : Reason) (rest : Category × Reason)
    → IsOpen (
        (if invalid
          then (invalid_forward_record, r)
          else if done
          then (graded, s)
          else if legacy
          then (graded, t)
          else if not listed
          then (not_yet_eligible, u)
          else rest).0)
    → (invalid ≡ false) × (listed ≡ true) × IsOpen rest.0
IsOpen-chain true done legacy listed r s t u rest h = ground arith
IsOpen-chain false true legacy listed r s t u rest h = ground arith
IsOpen-chain false false true listed r s t u rest h = ground arith
IsOpen-chain false false false true r s t u rest h = (refl, refl, h)
IsOpen-chain false false false false r s t u rest h = ground arith

still_past : (today later n : ℕ) → today ≤ later → ltb today n ≡ false → ltb later n ≡ false
still_past today later n le h = ground (arith, ltb→lt later n, lt→ltb today n)

module _ (py : Runtime) (parse_date : String → Option ℕ) where
  -- What a prediction that is open on a day has.
  record IsAwaited (ipo : Ipo py.F) (today : ℕ) : Type 0 where
    valid : ((ipo.status == "Not IPO") || (ipo.status == "Withdrawn")) ≡ false
    listed : (ipo.status == "Listed") ≡ true
    day : ℕ
    dated : parse_date ipo.listing_date ≡ some day
    past : ltb today (day + min_days_since_listing) ≡ false
    symbol : is_empty ipo.symbol ≡ false
    priced : no_price py ipo.final_price ≡ false

  open_listed :
      (ipo : Ipo py.F) (o : Option (Outcome py.F)) (today : ℕ) (date : Option ℕ)
      → IsOpen (classify_listed py ipo o today date).0
      → (day : ℕ) × (date ≡ some day)
        × (ltb today (day + min_days_since_listing) ≡ false)
        × (is_empty ipo.symbol ≡ false)
        × (no_price py ipo.final_price ≡ false)
  unfolding classify_listed
  open_listed ipo o today none h = ground arith
  open_listed ipo o today (some day) h = (day, refl, ground arith, ground arith, ground arith)

  open-IsAwaited :
      (ipo : Ipo py.F) (o : Option (Outcome py.F)) (today : ℕ)
      → IsOpen (classify_prediction py parse_date ipo o today).0
      → IsAwaited ipo today
  unfolding classify_prediction
  open-IsAwaited ipo o today h =
      let (valid, listed, rest) =
        IsOpen-chain ((ipo.status == "Not IPO") || (ipo.status == "Withdrawn"))
          (status_is graded o && outcome_has_return o) (outcome_has_return o)
          (ipo.status == "Listed") _ _ _ _
          (classify_listed py ipo o today (parse_date ipo.listing_date)) h in
      let (day, dated, past, symbol, priced) =
        open_listed ipo o today (parse_date ipo.listing_date) rest in
      record {
        valid = valid;
        listed = listed;
        day = day;
        dated = dated;
        past = past;
        symbol = symbol;
        priced = priced;
      }

  -- The category of an awaited prediction once its outcome is there.
  classify_awaited :
      (ipo : Ipo py.F) (today later : ℕ)
      → today ≤ later
      → IsAwaited ipo today
      → (o : Option (Outcome py.F))
      → classify_prediction py parse_date ipo o later ≡ (
          if status_is graded o && outcome_has_return o
          then (graded, attached)
          else if outcome_has_return o
          then (graded, attached_legacy)
          else if status_is blocked_market_data o
          then (blocked_market_data, note_of o)
          else (pending, awaiting))
  unfolding classify_prediction classify_listed
  classify_awaited ipo today later le w o =
      rw
        (
          w.valid,
          w.listed,
          w.dated,
          still_past today later (w.day + 1) le w.past,
          w.symbol,
          w.priced,
        )
        refl

  -- The category that a verdict leads to.
  abbrev pub category_after : Verdict py.F → Category × Reason
  category_after (blocked note) = (blocked_market_data, noted note)
  category_after (returned wr) = (graded, attached)

  close_graded :
      (lr lc price : Option py.F)
      → (is_some lr || is_some lc) ≡ true
      → ((c : py.F) → lc ≡ some c → truthy py (some c) ≡ true)
      → no_price py price ≡ false
      → is_some (if is_some lr then rounded py lr else rounded py (return_if py lc price)) ≡ true
  close_graded (some r) lc price h k n = refl
  close_graded none none price h k n = ground arith
  close_graded none (some c) none h k n = ground arith
  close_graded none (some c) (some p) h k n = ground (arith, k c refl)

  returned_injective : (r s : Returns py.F) → returned r ≡ returned s → r ≡ s
  returned_injective r s e = cc

  unless_blocked :
      (b : Bool) (note : Note) (v : Verdict py.F) (wr : Returns py.F)
      → (if b then blocked note else v) ≡ returned wr
      → v ≡ returned wr
  unless_blocked true note v wr e = ground arith
  unless_blocked false note v wr e = e

  verdict-returned :
      (r : Option (Returns py.F)) (wr : Returns py.F)
      → verdict_of py r ≡ returned wr
      → (r ≡ some wr) × ((is_some wr.listing_return_pct || is_some wr.listing_close) ≡ true)
  unfolding verdict_of
  verdict-returned none wr = λ e. ground arith
  verdict-returned (some r) wr =
      elim (Bool-cases (is_some r.listing_return_pct || is_some r.listing_close)) [
        | inl h ↦ rw h (λ e.
            let same = returned_injective r wr e in
            (
              ap some same,
              subst (λ x. (is_some x.listing_return_pct || is_some x.listing_close) ≡ true) same h,
            ))
        | inr h ↦ rw h (λ e. ground arith)
      ]

  module _ (history : Ipo py.F → History py.F) (benchmark : String → List (Bar py.F)) where
    attempt-returned :
        (ipo : Ipo py.F) (wr : Returns py.F)
        → attempt py parse_date history ipo ≡ returned wr
        → ((c : py.F) → wr.listing_close ≡ some c → truthy py (some c) ≡ true)
          × ((is_some wr.listing_return_pct || is_some wr.listing_close) ≡ true)
    unfolding attempt
    attempt-returned ipo wr e =
        let given = history ipo in
        let ts = listing_ts py parse_date ipo in
        let found = windowed_returns py given.prices ts ipo.final_price given.splits in
        let dated = unless_blocked (is_nil py given.prices) _ _ wr e in
        let (some_r, shown) =
          verdict-returned found wr
            (unless_blocked (not (is_some ts)) unparseable_date (verdict_of py found) wr dated) in
        (λ c k. close_truthy py given.prices ts ipo.final_price given.splits wr c some_r k, shown)

    settle_category :
        (ipo : Ipo py.F) (before : Option (Outcome py.F)) (o : Outcome py.F) (today later when : ℕ)
        → today ≤ later
        → IsAwaited ipo today
        → (v : Verdict py.F) → attempt py parse_date history ipo ≡ v
        → classify_prediction py parse_date ipo
            (some (settle py parse_date history benchmark ipo when v o))
            later
          ≡ category_after v
    unfolding settle block grade
    settle_category ipo before o today later when le w (blocked note) e =
        classify_awaited ipo today later le w
          (some (settle py parse_date history benchmark ipo when (blocked note) o))
    settle_category ipo before o today later when le w (returned wr) e =
        let (k, shown) = attempt-returned ipo wr e in
        let there =
          close_graded wr.listing_return_pct wr.listing_close ipo.final_price shown k w.priced in
        classify_awaited ipo today later le w
          (some (settle py parse_date history benchmark ipo when (returned wr) o))
        ∙ ground (arith, there)

    -- An attempt settles a prediction that is pending or blocked: from that day on it is graded where
    -- the attempt found returns, and else blocked with the attempt's note. It is never pending again.
    pub attempt_settles :
        (ipo : Ipo py.F) (before : Option (Outcome py.F)) (o : Outcome py.F) (today later when : ℕ)
        → today ≤ later
        → IsOpen (classify_prediction py parse_date ipo before today).0
        → let v = attempt py parse_date history ipo in
          classify_prediction py parse_date ipo
            (some (settle py parse_date history benchmark ipo when v o))
            later
          ≡ category_after v
    attempt_settles ipo before o today later when le h =
        settle_category ipo before o today later when le (open-IsAwaited ipo before today h)
          (attempt py parse_date history ipo) refl
