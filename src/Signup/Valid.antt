-- ===== src/Signup/Valid.antt =====
-- What a sign-up keeps of the tables.
use ipointel.Base.{
  Bool-cases, inl, inr, ◌++◌, ℕ, ◌+◌, ◌<◌, ◌≡◌, refl, String, Bool, true, false, not, Option, none,
  some, List, [], ◌∷◌, arith, is_empty, any, All, All-append, if◌then◌else◌,
}
use ipointel.Email.Queue.{commit, rollback}
use ipointel.RateLimit.{Limiter, hit}
use ipointel.Sheets.{find}
use ipointel.Sheets.Lookup.{enqueue_new}
use ipointel.Signup.{
  Payload, Subscriber, Site, Answer, find_email, new_subscriber, renewed, come_back, sign_up,
  is_taken, admit, waitlist, welcome, stored, update_email,
}
use ipointel.Signup.Rows.{
  IsUnique, IsKnown, none_taken, append_one-IsUnique, update_email-IsUnique, update_email-below,
  update_email-IsKnown, append-IsKnown, append_one-IsKnown, find_email-IsKnown, known_below,
}
use ipointel.Signup.Mail.{IsTo, welcome-IsTo, find_above}

-- No two leads share an address, a code or a token; every id of a lead is below the next one; and every
-- message, committed or not, and every row of the outbox is for a lead that exists.
pub record IsValid (site : Site) : Type 0 where
  pub emails : IsUnique (λ s. s.lead.email) site.subscribers
  pub codes : IsUnique (λ s. s.referral_code) site.subscribers
  pub tokens : IsUnique (λ s. s.unsubscribe_token) site.subscribers
  pub leads : All (λ s. s.lead.id < site.next_lead) site.subscribers
  pub messages : IsTo (IsKnown site.subscribers) site.mail.rows
  pub committed : IsTo (IsKnown site.subscribers) site.mail.committed
  pub outbox : All (λ r. IsKnown site.subscribers r.lead_id) site.outbox

-- What holds of every row still holds where it says less.
pub All_weaken :
    {A : Type 0} (P Q : A → Type 0) (xs : List A) → ((x : A) → P x → Q x) → All P xs → All Q xs
All_weaken P Q [] f h = tt
All_weaken P Q (x ∷ xs) f h = (f x h.0, All_weaken P Q xs f h.1)

if-IsValid :
    (b : Bool) (x y : Answer × Site) → IsValid x.1 → IsValid y.1 → IsValid (if b then x else y).1
if-IsValid true x y h k = h
if-IsValid false x y h k = k

-- The next id has no row in the outbox.
pub outbox_above : (site : Site) → IsValid site → find site.next_lead site.outbox ≡ none
outbox_above site v = find_above site.next_lead site.outbox (
    All_weaken _ _ site.outbox (λ r. known_below site.next_lead site.subscribers r.lead_id v.leads)
      v.outbox)

-- A lead that the table does not refuse.
stored-IsValid :
    (p : Payload) (now : ℕ) (email code token : String) (site : Site)
    → any (is_taken (new_subscriber p email code token site.next_lead)) site.subscribers ≡ false
    → IsValid site
    → IsValid (stored p now email code token site)
unfolding commit
stored-IsValid p now email code token site e v =
    let n = site.next_lead in
    let new = new_subscriber p email code token n in
    let subs = site.subscribers ++ new ∷ [] in
    let keep : (id : ℕ) → IsKnown site.subscribers id → IsKnown subs id =
      append-IsKnown site.subscribers (new ∷ []) in
    let known : IsKnown subs n = append_one-IsKnown site.subscribers new in
    let mails : IsTo (IsKnown subs) site.mail.rows =
      All_weaken _ _ site.mail.rows (λ m. keep m.lead_id) v.messages in
    let queued : IsTo (IsKnown subs) (welcome now new.lead (commit site.mail)).rows =
      welcome-IsTo (IsKnown subs) now new.lead (commit site.mail) mails mails known in
    let (emails, (codes, tokens)) = none_taken new site.subscribers e in
    record {
      emails = append_one-IsUnique _ site.subscribers new emails v.emails;
      codes = append_one-IsUnique _ site.subscribers new codes v.codes;
      tokens = append_one-IsUnique _ site.subscribers new tokens v.tokens;
      leads =
          All-append (λ s. s.lead.id < n + 1) site.subscribers _
            (All_weaken _ _ site.subscribers (λ s h. omega (arith, h)) v.leads) (omega arith, tt);
      messages = queued;
      committed = queued;
      outbox = rw (enqueue_new now n site.outbox (outbox_above site v)) (
          All-append (λ r. IsKnown subs r.lead_id) site.outbox _
            (All_weaken _ _ site.outbox (λ r. keep r.lead_id) v.outbox) (known, tt));
    }

sign_up-IsValid :
    (p : Payload) (now : ℕ) (email code token : String) (site : Site)
    → IsValid site
    → IsValid (sign_up p now email code token site).1
unfolding sign_up rollback
sign_up-IsValid p now email code token site v =
    let taken =
      any (is_taken (new_subscriber p email code token site.next_lead)) site.subscribers in
    let undone : IsValid (record site { mail = rollback site.mail }) = record {
      emails = v.emails;
      codes = v.codes;
      tokens = v.tokens;
      leads = v.leads;
      messages = v.committed;
      committed = v.committed;
      outbox = v.outbox;
    } in
    elim (Bool-cases taken) [
      | inl e ↦ rw e undone
      | inr e ↦ rw e (stored-IsValid p now email code token site e v)
    ]

come_back-IsValid :
    (p : Payload) (now : ℕ) (email : String) (s : Subscriber) (site : Site)
    → find_email email site.subscribers ≡ some s
    → IsValid site
    → IsValid (come_back p now email s site).1
unfolding come_back commit
come_back-IsValid p now email s site e v =
    let subs = update_email email (renewed p) site.subscribers in
    let keep : (id : ℕ) → IsKnown site.subscribers id → IsKnown subs id =
      update_email-IsKnown email p site.subscribers in
    let mails : IsTo (IsKnown subs) site.mail.rows =
      All_weaken _ _ site.mail.rows (λ m. keep m.lead_id) v.messages in
    let queued : IsTo (IsKnown subs) (welcome now (renewed p s).lead (commit site.mail)).rows =
      welcome-IsTo (IsKnown subs) now (renewed p s).lead (commit site.mail) mails mails
        (keep s.lead.id (find_email-IsKnown email site.subscribers s e)) in
    if-IsValid s.lead.consent _ _ v (record {
      emails = update_email-IsUnique _ email p site.subscribers (λ s. refl) v.emails;
      codes = update_email-IsUnique _ email p site.subscribers (λ s. refl) v.codes;
      tokens = update_email-IsUnique _ email p site.subscribers (λ s. refl) v.tokens;
      leads = update_email-below site.next_lead email p site.subscribers v.leads;
      messages = queued;
      committed = queued;
      outbox = All_weaken _ _ site.outbox (λ r. keep r.lead_id) v.outbox;
    })

admit-IsValid :
    (p : Payload) (now : ℕ) (email code token : String) (found : Option Subscriber) (site : Site)
    → find_email email site.subscribers ≡ found
    → IsValid site
    → IsValid (admit p now email code token found site).1
unfolding admit
admit-IsValid p now email code token none site e v = sign_up-IsValid p now email code token site v
admit-IsValid p now email code token (some s) site e v = come_back-IsValid p now email s site e v

pub limited-IsValid :
    (site : Site) (limiter : Limiter) → IsValid site → IsValid (record site { limiter = limiter })
limited-IsValid site limiter v = record {
  emails = v.emails;
  codes = v.codes;
  tokens = v.tokens;
  leads = v.leads;
  messages = v.messages;
  committed = v.committed;
  outbox = v.outbox;
}

-- Whatever is posted to the route, and whichever code and token are drawn for it: the tables stay
-- valid. No two leads ever share an address, a referral code or a token, every message of the mail
-- queue is for a lead that exists, and so is every row of the outbox.
pub waitlist-IsValid :
    (clean strip : String → String) (p : Payload) (client : String) (tick now : ℕ)
    (code token : String) (site : Site)
    → IsValid site
    → IsValid (waitlist clean strip p client tick now code token site).1
unfolding waitlist
waitlist-IsValid clean strip p client tick now code token site v =
    let v' = limited-IsValid site (hit client 6 60 tick site.limiter).0 v in
    if-IsValid (not (is_empty p.website)) _ _ v (
      if-IsValid (not p.consent) _ _ v (
        if-IsValid (hit client 6 60 tick site.limiter).1 _ _ v' (
          admit-IsValid (record p { name = strip p.name }) now (clean p.email) code token _ _ refl
            v')))
