-- ===== src/Email/Webhook.antt =====
-- app/services/webhooks.py: what a provider's event does to the messages and the leads. `lower` stands
-- for `str.lower`. The signature check, which uses HMAC, is not modelled.
pub mod Suppression
use text.Mathlib.Text.{◌==◌}
use ipointel.Base.Text.{clip}
use ipointel.Base.{
  ℕ, String, Bool, true, false, not, ◌&&◌, Option, none, some, List, [], ◌∷◌, is_empty,
  if◌then◌else◌,
}
use ipointel.Email.{Status, sent, delivered, delayed, bounced, complained, failed, Message, Lead}

-- `event["type"]`
pub data Kind : Type 0 where
  email_sent email_delivered email_delayed email_failed email_bounced email_complained : Kind
  other : String → Kind

-- `data["to"]`: a list, a text, or nothing
pub data Recipient : Type 0 where
  nobody : Recipient
  one : String → Recipient
  many : List String → Recipient

-- An event with the parts of its data that are read; a missing text is empty.
pub record Event : Type 0 where
  pub kind : Kind
  pub email_id : String
  pub id : String
  pub to : Recipient
  pub reason : String

-- The tables that an event may change.
pub record Tables : Type 0 where
  pub messages : List Message
  pub leads : List Lead

-- `(to[0] if isinstance(to, list) and to else to) or ""`
abbrev pub recipient_of : Recipient → String
recipient_of nobody = ""
recipient_of (one s) = s
recipient_of (many []) = ""
recipient_of (many (s ∷ ss)) = s

-- `data.get("email_id") or data.get("id") or ""`
abbrev pub provider_id : Event → String
provider_id e = if is_empty e.email_id then e.id else e.email_id

-- The message with this provider id, if the id is not empty.
unfoldable pub find_message : String → List Message → Option Message
find_message pid [] = none
find_message pid (m ∷ ms) =
    let rest = find_message pid ms in
    if not (is_empty pid) && m.provider_message_id == pid then some m else rest

-- The same row, changed.
unfoldable pub update_message : String → (Message → Message) → List Message → List Message
update_message pid f [] = []
update_message pid f (m ∷ ms) =
    let rest = update_message pid f ms in
    if not (is_empty pid) && m.provider_message_id == pid then f m ∷ ms else m ∷ rest

abbrev pub is_delivered : Status → Bool
is_delivered delivered = true
is_delivered _ = false

-- What each kind of event does to its message.
unfoldable pub apply_kind : Kind → String → ℕ → Message → Message
apply_kind email_sent reason now m = if is_delivered m.status then m else record m { status = sent }
apply_kind email_delivered reason now m = record m { status = delivered; delivered_at = some now }
apply_kind email_delayed reason now m = record m { status = delayed }
apply_kind email_failed reason now m = record m {
  status = failed;
  failed_at = some now;
  last_error = clip 2000 (if is_empty reason then "provider reported failure" else reason);
}
apply_kind email_bounced reason now m = record m {
  status = bounced;
  failed_at = some now;
  last_error = clip 2000 (if is_empty reason then "bounced" else reason);
}
apply_kind email_complained reason now m = record m { status = complained }
apply_kind (other s) reason now m = m

-- The lead with this address; addresses are unique.
unfoldable pub find_lead : String → List Lead → Option Lead
find_lead email [] = none
find_lead email (l ∷ ls) =
    let rest = find_lead email ls in if l.email == email then some l else rest

-- A lead that is suppressed already keeps its reason.
unfoldable pub mark : String → Lead → Lead
mark reason l =
    if l.suppressed then l else record l { suppressed = true; suppressed_reason = reason }

unfoldable pub suppress_lead : String → String → List Lead → List Lead
unfolding mark
suppress_lead email reason [] = []
suppress_lead email reason (l ∷ ls) =
    let rest = suppress_lead email reason ls in
    if l.email == email then mark reason l ∷ ls else l ∷ rest

-- Why an event suppresses its recipient, if it does.
abbrev pub suppression : Kind → Option String
suppression email_bounced = some "bounced"
suppression email_complained = some "complained"
suppression _ = none

abbrev pub is_handled : Kind → Bool
is_handled (other s) = false
is_handled _ = true

module _ (lower : String → String) where
  -- `_suppress_recipient`
  unfoldable pub suppress_recipient : String → String → List Lead → List Lead
  unfolding suppress_lead
  suppress_recipient email reason leads =
      if is_empty email then leads else suppress_lead (lower email) reason leads

  -- The address that is suppressed: the event's, or else that of the message.
  unfoldable pub target : Event → List Message → String
  target e messages =
      if is_empty (recipient_of e.to)
      then elim (find_message (provider_id e) messages) [ none ↦ "" | some m ↦ m.email ]
      else recipient_of e.to

  -- The leads after an event that suppresses the address for a reason, or does not.
  unfoldable pub leads_after : Option String → String → List Lead → List Lead
  unfolding suppress_recipient
  leads_after none address leads = leads
  leads_after (some reason) address leads = suppress_recipient address reason leads

  -- `handle_event`: the tables, and whether the event was handled
  unfoldable pub handle_event : ℕ → Event → Tables → Tables × Bool
  handle_event now e t = (
    record {
      messages = update_message (provider_id e) (apply_kind e.kind e.reason now) t.messages;
      leads = leads_after (suppression e.kind) (target e t.messages) t.leads;
    },
    is_handled e.kind,
  )
