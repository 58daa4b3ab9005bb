-- ===== src/Email/Webhook/Suppression.antt =====
-- Bounces and complaints stop the mail to an address, and no event starts it again.
use text.Mathlib.Text.{◌==◌}
use ipointel.Base.{
  ℕ, String, ◌≡◌, ◌⊎◌, if◌then◌else◌, refl, ap, ◌∙◌, inl, inr, Bool, true, false, Option, none,
  some, List, [], ◌∷◌, arith, is_empty, eq_iff, Bool-cases,
}
use ipointel.Email.{Lead, Message}
use ipointel.Email.Webhook.{
  Kind, Recipient, nobody, one, many, email_bounced, email_complained, recipient_of, provider_id,
  find_message, Event, Tables, find_lead, mark, suppress_lead, suppression, target, leads_after,
  handle_event,
}

marked : Bool → String → Option Lead → Option Lead
marked b reason none = none
marked true reason (some l) = some (mark reason l)
marked false reason (some l) = some l

email-mark : (reason : String) (l : Lead) → (mark reason l).email ≡ l.email
unfolding mark
email-mark reason l = elim (Bool-cases l.suppressed) [ inl h ↦ simp h | inr h ↦ simp h ]

-- Only the lead with the address is marked.
find-suppress :
    (email reason address : String) (leads : List Lead)
    → find_lead address (suppress_lead email reason leads)
      ≡ marked (address == email) reason (find_lead address leads)
unfolding marked find_lead suppress_lead
find-suppress email reason address [] = refl
find-suppress email reason address (x ∷ xs) = ground (
  arith,
  find-suppress email reason address xs,
  email-mark reason x,
  eq_iff x.email email,
  eq_iff x.email address,
  eq_iff address email,
)

marked_lem :
    (b : Bool) (reason : String) (l : Lead)
    → (l' : Lead) × (marked b reason (some l) ≡ some l')
      × (l'.consent ≡ l.consent)
      × (l.suppressed ≡ true → l'.suppressed ≡ true)
      × (b ≡ true → l'.suppressed ≡ true)
unfolding marked mark
marked_lem true reason l = elim (Bool-cases l.suppressed) [
  | inl before ↦ (l, simp before, refl, λ h. h, λ h. before)
  | inr after ↦ (
    record l { suppressed = true; suppressed_reason = reason },
    simp after,
    refl,
    λ h. refl,
    λ h. refl,
  )
]
marked_lem false reason l = (l, refl, refl, λ h. h, λ h. cc)

-- The events that stop the mail to an address, with their reasons.
abbrev pub Stops : Kind → String → Type 0
Stops kind reason =
    ((kind ≡ email_bounced) × (reason ≡ "bounced"))
    ⊎ ((kind ≡ email_complained) × (reason ≡ "complained"))

-- The address that an event names, alone or first of several.
abbrev pub Names : Recipient → String → Type 0
Names nobody address = ⊥
Names (one s) address = s ≡ address
Names (many []) address = ⊥
Names (many (s ∷ ss)) address = s ≡ address

-- The address that an event is about: where it names nobody, that of the message with its id.
abbrev pub Concerns : Event → List Message → String → Type 0
Concerns e messages address =
    Names e.to address
    ⊎ ((¬ ((s : String) × (Names e.to s × (is_empty s ≡ false))))
        × ((m : Message) × ((find_message (provider_id e) messages ≡ some m)
              × (m.email ≡ address))))

-- A lead that is suppressed, for this reason if it was not suppressed before.
abbrev pub stopped : String → Lead → Lead
stopped reason l = record l {
  suppressed = true;
  suppressed_reason = if l.suppressed then l.suppressed_reason else reason;
}

suppression_lem :
    (kind : Kind) (reason : String) → Stops kind reason → suppression kind ≡ some reason
suppression_lem kind reason (inl (k, r)) = rw (k, r) refl
suppression_lem kind reason (inr (k, r)) = rw (k, r) refl

mark_stops : (reason : String) (l : Lead) → mark reason l ≡ stopped reason l
unfolding mark
mark_stops reason l = elim (Bool-cases l.suppressed) [
  | inl before ↦ simp before (ap (λ b. record l { suppressed = b }) before)
  | inr after ↦ simp after refl
]

recipient_named : (to : Recipient) (address : String) → Names to address → recipient_of to ≡ address
recipient_named nobody address n = absurd n
recipient_named (one s) address n = n
recipient_named (many []) address n = absurd n
recipient_named (many (s ∷ ss)) address n = n

recipient_nobody :
    (to : Recipient)
    → ¬ ((s : String) × (Names to s × (is_empty s ≡ false)))
    → is_empty (recipient_of to) ≡ true
recipient_nobody nobody n = refl
recipient_nobody (one s) n = elim (Bool-cases (is_empty s)) [
  | inl blank ↦ blank
  | inr filled ↦ absurd (n (s, (refl, filled)))
]
recipient_nobody (many []) n = refl
recipient_nobody (many (s ∷ ss)) n = elim (Bool-cases (is_empty s)) [
  | inl blank ↦ blank
  | inr filled ↦ absurd (n (s, (refl, filled)))
]

module _ (lower : String → String) where
  target_lem :
      (e : Event) (messages : List Message) (address : String)
      → Concerns e messages address
      → is_empty address ≡ false
      → target lower e messages ≡ address
  unfolding target
  target_lem e messages address (inl named) addressed =
      rw (recipient_named e.to address named, addressed) refl
  target_lem e messages address (inr (none_named, (m, (found, same)))) addressed =
      rw (recipient_nobody e.to none_named, found) same

  leads_after_suppresses :
      (reason address : String) (l : Lead) (leads : List Lead)
      → is_empty address ≡ false
      → find_lead (lower address) leads ≡ some l
      → (l' : Lead) × (find_lead (lower address) (leads_after lower (some reason) address leads)
          ≡ some l')
        × (l' ≡ stopped reason l)
  unfolding leads_after marked
  leads_after_suppresses reason address l leads addressed found =
      let to = lower address in
      let hit : (to == to) ≡ true = (eq_iff to to).1 refl in
      (
        mark reason l,
        simp addressed (
            find-suppress to reason to leads
            ∙ (ap (marked (to == to) reason) found ∙ ap (λ b. marked b reason (some l)) hit)),
        mark_stops reason l,
      )

  leads_after_keeps :
      (why : Option String) (to address : String) (l : Lead) (leads : List Lead)
      → find_lead address leads ≡ some l
      → (l' : Lead) × (find_lead address (leads_after lower why to leads) ≡ some l')
        × (l'.consent ≡ l.consent)
        × (l.suppressed ≡ true → l'.suppressed ≡ true)
  unfolding leads_after
  leads_after_keeps none to address l leads found = (l, found, refl, λ h. h)
  leads_after_keeps (some reason) to address l leads found = elim (Bool-cases (is_empty to)) [
    | inl unnamed ↦ (l, simp unnamed found, refl, λ h. h)
    | inr addressed ↦
        let b = address == lower to in
        let (l', marks, same, kept, done) = marked_lem b reason l in
        (
          l',
          simp addressed (
              find-suppress (lower to) reason address leads ∙ (ap (marked b reason) found ∙ marks)),
          same,
          kept,
        )
  ]

  -- A bounce or a complaint about an address, which is the first one that the event names or, if it
  -- names none, that of the message it is about: the lead with this address, in lower case, is
  -- suppressed after it, for that reason unless it was suppressed before, and else unchanged.
  pub handle_event_suppresses :
      (now : ℕ) (e : Event) (t : Tables) (reason address : String) (l : Lead)
      → Stops e.kind reason
      → Concerns e t.messages address
      → is_empty address ≡ false
      → find_lead (lower address) t.leads ≡ some l
      → (l' : Lead) × (find_lead (lower address) (handle_event lower now e t).0.leads ≡ some l')
        × (l' ≡ stopped reason l)
  unfolding handle_event
  handle_event_suppresses now e t reason address l why concerns addressed found =
      let (l', there, done) = leads_after_suppresses reason address l t.leads addressed found in
      (
        l',
        ap
              (λ w.
                find_lead (lower address) (leads_after lower w (target lower e t.messages) t.leads))
              (suppression_lem e.kind reason why)
            ∙ (ap (λ to. find_lead (lower address) (leads_after lower (some reason) to t.leads))
                  (target_lem e t.messages address concerns addressed)
                ∙ there),
        done,
      )

  -- No event takes a lead away, changes its consent, or ends its suppression.
  pub handle_event_keeps :
      (now : ℕ) (e : Event) (t : Tables) (address : String) (l : Lead)
      → find_lead address t.leads ≡ some l
      → (l' : Lead) × (find_lead address (handle_event lower now e t).0.leads ≡ some l')
        × (l'.consent ≡ l.consent)
        × (l.suppressed ≡ true → l'.suppressed ≡ true)
  unfolding handle_event
  handle_event_keeps now e t address l found =
      leads_after_keeps (suppression e.kind) (target lower e t.messages) address l t.leads found
