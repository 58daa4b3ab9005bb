-- ===== src/Market/Windows.antt =====
-- What `windowed_returns` reads its returns off, and what it never publishes.
use ipointel.Base.{
  ℕ, ◌+◌, ◌*◌, ◌≤◌, ◌<◌, ◌≡◌, refl, inl, inr, Bool, true, false, Option, none, some, List, [], ◌∷◌,
  arith, ltb, if◌then◌else◌, some_injective, if_none-some, sym, ◌∙◌, subst, Bool-cases, ltb→lt,
  lt→ltb,
}
use ipointel.Runtime.{Runtime}
use ipointel.Runtime.Order.{num, truthy}
use ipointel.Market.{
  Bar, Split, Returns, bar_nearest_before_or_on, last_bar, listing_bar, in_time, day_seconds,
  window, after_session, measured, from_session, windowed_returns, return_pct, is_implausible,
  is_implausible_at, map_option, and_then, split_adjusted_issue_price, return_if, or_none,
  factor_after,
}
use ipointel.Market.Bars.{IsOneOf, IsChronological, NoneBetween, nearest_latest}

map_option-some :
    {A B : Type 0} (f : A → B) (o : Option A) (b : B)
    → map_option f o ≡ some b
    → (a : A) × (o ≡ some a) × (b ≡ f a)
map_option-some f none b e = ground arith
map_option-some f (some a) b e = (a, refl, sym (some_injective (f a) b e))

and_then-some :
    {A B : Type 0} (f : A → Option B) (o : Option A) (b : B)
    → and_then f o ≡ some b
    → (a : A) × (o ≡ some a) × (f a ≡ some b)
and_then-some f none b e = ground arith
and_then-some f (some a) b e = (a, refl, e)

in_time-some :
    {F : Type 0} (listing_ts : ℕ) (o : Option (Bar F)) (b : Bar F)
    → in_time listing_ts o ≡ some b
    → b.ts ≤ listing_ts + 14 * day_seconds
unfolding in_time
in_time-some listing_ts none b e = ground arith
in_time-some listing_ts (some c) b e =
    let (early, at) = if_none-some (ltb (listing_ts + 14 * day_seconds) c.ts) (some c) b e in
    rw (sym (some_injective c b at))
      (ground (arith, lt→ltb (listing_ts + 14 * day_seconds) c.ts, early))

module _ (py : Runtime) where
  after_session-some :
      (session : ℕ) (base : py.F) (o : Option (Bar py.F)) (x : py.F)
      → after_session py session base o ≡ some x
      → (b : Bar py.F) × (o ≡ some b) × (session < b.ts) × (x ≡ return_pct py b.close base)
  unfolding after_session
  after_session-some session base none x = λ e. ground arith
  after_session-some session base (some b) x = elim (Bool-cases (ltb session b.ts)) [
    | inl h ↦ rw h (λ e.
        (b, refl, ltb→lt session b.ts h, sym (some_injective (return_pct py b.close base) x e)))
    | inr h ↦ rw h (λ e. ground arith)
  ]

  -- On bars in order of time, a return over a window of some days is that of a bar of the list
  -- against the base, where the bar lies after the listing session and within the window, no other
  -- bar within the window is later, and the list reaches to the end of the window.
  pub window_return :
      (first : Bar py.F) (bars : List (Bar py.F)) (session : ℕ) (base : py.F) (days : ℕ) (x : py.F)
      → IsChronological 0 (first ∷ bars)
      → window py first bars session base days ≡ some x
      → (b : Bar py.F) × IsOneOf b (first ∷ bars)
        × (session < b.ts)
        × (b.ts ≤ session + days * day_seconds)
        × NoneBetween b.ts (session + days * day_seconds) (first ∷ bars)
        × (session + days * day_seconds ≤ (last_bar first bars).ts)
        × (x ≡ return_pct py b.close base)
  unfolding window after_session
  window_return first bars session base days x o e =
      let target = session + days * day_seconds in
      let (reached, found) =
        if_none-some (ltb (last_bar first bars).ts target)
          (after_session py session base (bar_nearest_before_or_on (first ∷ bars) target)) x e in
      let (b, at, after, value) =
        after_session-some session base (bar_nearest_before_or_on (first ∷ bars) target) x found in
      let (i, h, latest) = nearest_latest (first ∷ bars) target b o at in
      (
        b,
        i,
        after,
        h,
        latest,
        ground (arith, lt→ltb (last_bar first bars).ts target, reached),
        value,
      )

  plausible :
      (r : Option py.F) (b : Bool) (v : py.F)
      → b ≡ is_implausible_at py r
      → (if b then none else r) ≡ some v
      → is_implausible py v ≡ false
  plausible r b v h e =
      let (off, at) = if_none-some b r v e in
      subst (λ o. is_implausible_at py o ≡ false) at (sym h ∙ off)

  from_session-some :
      (first : Bar py.F) (bars : List (Bar py.F)) (session : Bar py.F) (price : Option py.F)
      (splits : List (Split py.F)) (r : Returns py.F)
      → from_session py first bars session price splits ≡ some r
      → (r.session ≡ session.ts)
        × (r.listing_close ≡ or_none py (some session.close))
        × (r.listing_return_pct ≡ (
            if r.suppressed
            then none
            else return_if py
                (or_none py (some session.close))
                (split_adjusted_issue_price py price session.ts splits)))
        × (r.suppressed
            ≡ is_implausible_at py (
                return_if py
                  (or_none py (some session.close))
                  (split_adjusted_issue_price py price session.ts splits)))
  unfolding from_session measured
  from_session-some first bars session price splits r e =
      let (b, at, h) =
        map_option-some
          (λ b. measured py first bars session price splits b (
            is_implausible_at py (
              return_if py (or_none py (some session.close))
                (split_adjusted_issue_price py price session.ts splits))))
          _ r e in
      rw h (refl, refl, refl, refl)

  -- A listing return that `windowed_returns` gives is never implausible, and the session that it is
  -- read off lies at most 14 days after the stated listing date.
  pub windowed_returns-plausible :
      (bars : List (Bar py.F)) (listing_ts : ℕ) (price : Option py.F) (splits : List (Split py.F))
      (r : Returns py.F)
      → windowed_returns py bars (some listing_ts) price splits ≡ some r
      → ((v : py.F) → r.listing_return_pct ≡ some v → is_implausible py v ≡ false)
        × (r.session ≤ listing_ts + 14 * day_seconds)
  unfolding windowed_returns listing_bar in_time
  windowed_returns-plausible [] listing_ts price splits r e = ground arith
  windowed_returns-plausible (first ∷ bars) listing_ts price splits r e =
      let (session, at, from) = and_then-some _ _ r e in
      let (same, closed, shown, why) = from_session-some first bars session price splits r from in
      (
        (λ v k. plausible _ r.suppressed v why (sym shown ∙ k)),
        rw same (in_time-some listing_ts _ session at),
      )

  or_none-some : (o : Option py.F) (c : py.F) → or_none py o ≡ some c → truthy py (some c) ≡ true
  or_none-some o c = elim (Bool-cases (truthy py o)) [
    | inl h ↦ rw h (λ e. subst (λ x. truthy py x ≡ true) e h)
    | inr h ↦ rw h (λ e. ground arith)
  ]

  -- A listing close that `windowed_returns` gives is not zero.
  pub close_truthy :
      (bars : List (Bar py.F)) (listing_ts : Option ℕ) (price : Option py.F)
      (splits : List (Split py.F)) (r : Returns py.F) (c : py.F)
      → windowed_returns py bars listing_ts price splits ≡ some r
      → r.listing_close ≡ some c
      → truthy py (some c) ≡ true
  unfolding windowed_returns
  close_truthy [] ts price splits r c e k = ground arith
  close_truthy (first ∷ bars) none price splits r c e k = ground arith
  close_truthy (first ∷ bars) (some ts) price splits r c e k =
      let (session, at, from) =
        and_then-some (λ x. from_session py first bars x price splits) (listing_bar first bars ts) r
          e in
      let (same, closed, shown, why) = from_session-some first bars session price splits r from in
      or_none-some (some session.close) c (sym closed ∙ k)

  if_true-none : {A : Type 0} (b : Bool) (o : Option A) → b ≡ true → (if b then none else o) ≡ none
  if_true-none true o h = refl
  if_true-none false o h = ground arith

  implausible_some :
      (o : Option py.F)
      → is_implausible_at py o ≡ true
      → (v : py.F) × (o ≡ some v) × (is_implausible py v ≡ true)
  implausible_some none h = ground arith
  implausible_some (some v) h = (v, refl, h)

  adjusted_alone :
      (p : py.F) (ts : ℕ)
      → py.mul p (num py 1) ≡ p
      → split_adjusted_issue_price py (some p) ts [] ≡ some p
  unfolding split_adjusted_issue_price factor_after
  adjusted_alone p ts h = elim (Bool-cases (truthy py (some p))) [
    | inl e ↦ rw (e, h) refl
    | inr e ↦ rw e refl
  ]

  suppressed_session :
      (first : Bar py.F) (bars : List (Bar py.F)) (session : Bar py.F) (p : py.F) (r : Returns py.F)
      → py.mul p (num py 1) ≡ p
      → from_session py first bars session (some p) [] ≡ some r
      → r.suppressed ≡ true
      → (r.listing_return_pct ≡ none)
        × ((v : py.F) × (return_if py r.listing_close (some p) ≡ some v)
            × (is_implausible py v ≡ true))
  suppressed_session first bars session p r unit from hidden =
      let (same, closed, shown, why) = from_session-some first bars session (some p) [] r from in
      let adjusted = adjusted_alone p session.ts unit in
      let value =
        return_if py (or_none py (some session.close))
          (split_adjusted_issue_price py (some p) session.ts []) in
      (
        shown ∙ if_true-none r.suppressed value hidden,
        implausible_some (return_if py r.listing_close (some p))
            (rw (closed, sym adjusted) (sym why ∙ hidden)),
      )

  -- Where `windowed_returns` suppresses the listing return of an issue without splits, the return of
  -- its listing close against the issue price is there all the same, and implausible.
  pub windowed_returns_suppressed :
      (bars : List (Bar py.F)) (listing_ts : ℕ) (p : py.F) (r : Returns py.F)
      → py.mul p (num py 1) ≡ p
      → windowed_returns py bars (some listing_ts) (some p) [] ≡ some r
      → r.suppressed ≡ true
      → (r.listing_return_pct ≡ none)
        × ((v : py.F) × (return_if py r.listing_close (some p) ≡ some v)
            × (is_implausible py v ≡ true))
  unfolding windowed_returns
  windowed_returns_suppressed [] ts p r unit e hidden = ground arith
  windowed_returns_suppressed (first ∷ bars) ts p r unit e hidden =
      let (session, at, from) =
        and_then-some (λ x. from_session py first bars x (some p) []) (listing_bar first bars ts) r
          e in
      suppressed_session first bars session p r unit from hidden
