-- ===== src/Signup/Stored.antt =====
-- What a sign-up stores, if the table takes it.
use ipointel.Base.{
  ℕ, ◌≡◌, refl, ap, ◌∙◌, String, Bool, true, false, not, Option, none, some, arith, is_empty, any,
  if◌then◌else◌,
}
use ipointel.Email.Queue.{commit}
use ipointel.RateLimit.{hit}
use ipointel.Sheets.{find, new_row}
use ipointel.Sheets.Lookup.{enqueue_new, find-append_one}
use ipointel.Signup.{
  reserved, Payload, Subscriber, Site, Answer, find_email, new_subscriber, sign_up, admit, waitlist,
  stored,
}
use ipointel.Signup.Rows.{IsFree, free-is_taken, known_below, find_email-append_new}
use ipointel.Signup.Mail.{welcome_queued, is_welcome}
use ipointel.Signup.Valid.{IsValid, All_weaken, outbox_above, limited-IsValid}

stored_lem :
    (p : Payload) (now : ℕ) (email code token : String) (site : Site)
    → find_email email site.subscribers ≡ none
    → IsValid site
    → let n = site.next_lead in
      let site' = stored p now email code token site in
      (find_email email site'.subscribers ≡ some (new_subscriber p email code token n))
      × ((any (is_welcome n) site'.mail.committed ≡ true)
          × (find n site'.outbox ≡ some (new_row now n)))
unfolding commit
stored_lem p now email code token site e v =
    let n = site.next_lead in
    let new = new_subscriber p email code token n in
    let below =
      All_weaken _ _ site.mail.rows (λ m. known_below n site.subscribers m.lead_id v.leads)
        v.messages in
    (
      find_email-append_new site.subscribers new e,
      (
        welcome_queued n now new.lead (commit site.mail) below refl,
        rw (enqueue_new now n site.outbox (outbox_above site v))
            (find-append_one n site.outbox (new_row now n) (outbox_above site v) ∙ ground arith),
      ),
    )

sign_up_accepts :
    (p : Payload) (now : ℕ) (email code token : String) (site : Site)
    → find_email email site.subscribers ≡ none
    → IsFree code token site.subscribers
    → sign_up p now email code token site ≡ (reserved code, stored p now email code token site)
unfolding sign_up
sign_up_accepts p now email code token site e f =
    rw (free-is_taken (new_subscriber p email code token site.next_lead) site.subscribers e f) refl

last_of_three :
    (a b c : Bool) (x y z t : Answer × Site)
    → a ≡ false
    → b ≡ false
    → c ≡ false
    → (if a then x else if b then y else if c then z else t) ≡ t
last_of_three a b c x y z t h k l = rw (h, k, l) refl

admit_new :
    (p : Payload) (now : ℕ) (email code token : String) (found : Option Subscriber) (site : Site)
    → found ≡ none
    → admit p now email code token found site ≡ sign_up p now email code token site
unfolding admit
admit_new p now email code token none site e = refl
admit_new p now email code token (some s) site e = cc

waitlist_signs_up :
    (clean strip : String → String) (p : Payload) (client : String) (tick now : ℕ)
    (code token : String) (site : Site)
    → is_empty p.website ≡ true
    → p.consent ≡ true
    → (hit client 6 60 tick site.limiter).1 ≡ false
    → find_email (clean p.email) site.subscribers ≡ none
    → waitlist clean strip p client tick now code token site
      ≡ sign_up
          (record p { name = strip p.name })
          now
          (clean p.email)
          code
          token
          (record site { limiter = (hit client 6 60 tick site.limiter).0 })
unfolding waitlist
waitlist_signs_up clean strip p client tick now code token site w c l e =
    last_of_three (not (is_empty p.website)) (not p.consent) _ _ _ _ _ (ap not w) (ap not c) l
    ∙ admit_new (record p { name = strip p.name }) now (clean p.email) code token _ _ e

-- A sign-up with consent and an empty honeypot, from a client that is not limited, with an address that
-- is new, and for which a code and a token are drawn that no other lead has, is stored in full: the
-- answer carries its code, the lead can be found by its address, a welcome mail to it is queued and
-- committed, and a pending row for the spreadsheet is there.
pub waitlist_stores :
    (clean strip : String → String) (p : Payload) (client : String) (tick now : ℕ)
    (code token : String) (site : Site)
    → IsValid site
    → is_empty p.website ≡ true
    → p.consent ≡ true
    → (hit client 6 60 tick site.limiter).1 ≡ false
    → find_email (clean p.email) site.subscribers ≡ none
    → IsFree code token site.subscribers
    → let n = site.next_lead in
      let (answer, site') = waitlist clean strip p client tick now code token site in
      (answer ≡ reserved code)
      × ((find_email (clean p.email) site'.subscribers
            ≡ some (new_subscriber (record p { name = strip p.name }) (clean p.email) code token n))
          × ((any (is_welcome n) site'.mail.committed ≡ true)
              × (find n site'.outbox ≡ some (new_row now n))))
waitlist_stores clean strip p client tick now code token site v w c l e f =
    let p' = record p { name = strip p.name } in
    let site' = record site { limiter = (hit client 6 60 tick site.limiter).0 } in
    rw
      (waitlist_signs_up clean strip p client tick now code token site w c l e
        ∙ sign_up_accepts p' now (clean p.email) code token site' e f)
      (refl, stored_lem p' now (clean p.email) code token site' e (limited-IsValid site _ v))
