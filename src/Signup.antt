-- ===== src/Signup.antt =====
-- `waitlist` of app/main.py, the route that takes a sign-up: how the rate limiter, the leads with their
-- unique columns, the mail queue and the spreadsheet outbox work together. The code and the token that
-- are drawn are parameters, and so is what cleans a text: `clean` is `strip` and `lower` of an address.
-- The shape of a payload is checked before the route runs.
pub mod Rows
pub mod Mail
pub mod Valid
pub mod Stored
mod Tests
use text.Mathlib.Text.{◌==◌ as str_eq}
use ipointel.Base.{
  ℕ, ◌+◌, String, Bool, true, false, not, Option, none, some, List, [], ◌∷◌, ◌++◌, is_empty, ◌||◌,
  any, if◌then◌else◌,
}
use ipointel.Email.{Lead, priority_transactional}
use ipointel.Email.Queue.{Session, commit, rollback, enqueue}
use ipointel.Sheets.{Row}
use ipointel.Sheets.{enqueue as enqueue_row}
use ipointel.RateLimit.{Limiter, hit}

-- `WaitlistIn`
pub record Payload : Type 0 where
  pub email : String
  pub name : String
  pub investor_type : String
  pub markets : String
  pub consent : Bool
  pub referred_by : String
  pub source : String
  pub campaign : String
  pub page_path : String
  pub website : String

-- `WaitlistLead`, as a lead of the mail queue and the columns of a sign-up
pub record Subscriber : Type 0 where
  pub lead : Lead
  pub name : String
  pub investor_type : String
  pub referral_code : String
  pub referred_by : String
  pub unsubscribe_token : String
  pub source : String
  pub campaign : String
  pub page_path : String

-- The tables that a sign-up writes, and the limiter of the process.
pub record Site : Type 0 where
  pub limiter : Limiter
  pub subscribers : List Subscriber
  pub next_lead : ℕ
  pub mail : Session
  pub outbox : List Row

pub data Answer : Type 0 where
  thanked consent_required too_many server_error : Answer
  back already reserved : String → Answer

-- `select(WaitlistLead).where(WaitlistLead.email == email)`
unfoldable pub find_email : String → List Subscriber → Option Subscriber
find_email email [] = none
find_email email (s ∷ subs) =
    let rest = find_email email subs in if str_eq s.lead.email email then some s else rest

-- The row of the address, changed.
unfoldable pub update_email : String → (Subscriber → Subscriber) → List Subscriber → List Subscriber
update_email email change [] = []
update_email email change (s ∷ subs) =
    let rest = update_email email change subs in
    if str_eq s.lead.email email then change s ∷ subs else s ∷ rest

-- The columns that a lead sets who comes back; the reason of an earlier suppression stays.
abbrev pub renewed : Payload → Subscriber → Subscriber
renewed p s = record s {
  lead = record s.lead { consent = true; markets = p.markets; suppressed = false };
  investor_type = p.investor_type;
}

-- Calls of the queue with its defaults, and the commit after them.
abbrev pub welcome : ℕ → Lead → Session → Session
welcome now lead mail = (enqueue lead "welcome" priority_transactional "" none none "" now mail).1

unfoldable pub come_back : Payload → ℕ → String → Subscriber → Site → Answer × Site
come_back p now email s site = if s.lead.consent then (already s.referral_code, site) else (
  back s.referral_code,
  record site {
    subscribers = update_email email (renewed p) site.subscribers;
    mail = commit (welcome now (renewed p s).lead (commit site.mail));
  },
)

abbrev pub new_subscriber : Payload → String → String → String → ℕ → Subscriber
new_subscriber p email code token id = record {
  lead = record {
    id = id;
    email = email;
    markets = p.markets;
    consent = p.consent;
    suppressed = false;
    suppressed_reason = "";
    alert_score_change = true;
    alert_recommendation_change = true;
    alert_red_flag = true;
  };
  name = p.name;
  investor_type = p.investor_type;
  referral_code = code;
  referred_by = p.referred_by;
  unsubscribe_token = token;
  source = p.source;
  campaign = p.campaign;
  page_path = p.page_path;
}

-- The columns that the table wants unique.
abbrev pub is_taken : Subscriber → Subscriber → Bool
is_taken new s =
    str_eq s.lead.email new.lead.email
    || (str_eq s.referral_code new.referral_code
        || str_eq s.unsubscribe_token new.unsubscribe_token)

-- The tables once a lead is in: it is committed before anything is queued.
abbrev pub stored : Payload → ℕ → String → String → String → Site → Site
stored p now email code token site =
    let new = new_subscriber p email code token site.next_lead in
    record site {
      subscribers = site.subscribers ++ new ∷ [];
      next_lead = site.next_lead + 1;
      mail = commit (welcome now new.lead (commit site.mail));
      outbox = (enqueue_row now site.next_lead site.outbox).1;
    }

-- A lead whose address is new. Where the table refuses it, the error reaches the caller and the
-- session is closed.
unfoldable pub sign_up : Payload → ℕ → String → String → String → Site → Answer × Site
sign_up p now email code token site =
    if any (is_taken (new_subscriber p email code token site.next_lead)) site.subscribers
    then (server_error, record site { mail = rollback site.mail })
    else (reserved code, stored p now email code token site)

-- From the look at the address on.
unfoldable pub admit :
    Payload → ℕ → String → String → String → Option Subscriber → Site → Answer × Site
unfolding come_back sign_up
admit p now email code token none site = sign_up p now email code token site
admit p now email code token (some s) site = come_back p now email s site

module _ (clean strip : String → String) where
  -- `waitlist`; `tick` is the monotonic clock, and `client` the key of the limiter.
  unfoldable pub waitlist : Payload → String → ℕ → ℕ → String → String → Site → Answer × Site
  unfolding admit
  waitlist p client tick now code token site =
      let (limiter, limited) = hit client 6 60 tick site.limiter in
      let site' = record site { limiter = limiter } in
      if not (is_empty p.website)
      then (thanked, site)
      else if not p.consent
      then (consent_required, site)
      else if limited
      then (too_many, site')
      else admit (record p { name = strip p.name }) now (clean p.email) code token
          (find_email (clean p.email) site.subscribers) site'
