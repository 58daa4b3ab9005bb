-- ===== src/Signup/Mail.antt =====
-- The mail queue and the spreadsheet outbox: what a sign-up adds to them.
use text.Mathlib.Text.{◌==◌ as str_eq}
use ipointel.Base.{
  ℕ, ◌<◌, ◌≡◌, refl, inl, inr, Bool, true, false, ◌&&◌, none, List, [], ◌∷◌, ◌++◌, arith, ◌==◌, any,
  All, All-append, Bool-cases,
}
use ipointel.Email.{Lead, Message}
use ipointel.Email.Queue.{Session, enqueue, flush_new, rollback, clash, is_queued}
use ipointel.Sheets.{Row, find}
use ipointel.Signup.{welcome}

-- Every message is to a lead of which `P` holds.
abbrev pub IsTo : (ℕ → Type 0) → List Message → Type 0
IsTo P rows = All (λ m. P m.lead_id) rows

flush_new-IsTo :
    (P : ℕ → Type 0) (m : Message) (s : Session)
    → IsTo P s.rows
    → IsTo P s.committed
    → P m.lead_id
    → IsTo P (flush_new m s).1.rows
unfolding flush_new rollback
flush_new-IsTo P m s h k l = elim (Bool-cases (any (clash m) s.rows)) [
  | inl again ↦ rw again k
  | inr first ↦ rw first (All-append (λ x. P x.lead_id) s.rows _ h (l, tt))
]

-- A welcome mail goes to the lead, or nothing is added.
pub welcome-IsTo :
    (P : ℕ → Type 0) (now : ℕ) (lead : Lead) (s : Session)
    → IsTo P s.rows
    → IsTo P s.committed
    → P lead.id
    → IsTo P (welcome now lead s).rows
unfolding enqueue
welcome-IsTo P now lead s h k l = flush_new-IsTo P _ s h k l

no_clash :
    (n : ℕ) (m : Message) (rows : List Message)
    → IsTo (λ id. id < n) rows
    → m.lead_id ≡ n
    → any (clash m) rows ≡ false
unfolding clash
no_clash n m [] h e = refl
no_clash n m (r ∷ rows) h e = ground (arith, no_clash n m rows)

-- Whether a welcome mail to a lead waits in the queue.
abbrev pub is_welcome : ℕ → Message → Bool
is_welcome lead m = m.lead_id == lead && (str_eq m.template "welcome" && is_queued m.status)

any-append_true :
    (test : Message → Bool) (rows : List Message) (m : Message)
    → test m ≡ true
    → any test (rows ++ m ∷ []) ≡ true
any-append_true test [] m h = ground arith
any-append_true test (r ∷ rows) m h = ground (arith, any-append_true test rows m)

flush_new_queued :
    (n : ℕ) (m : Message) (s : Session)
    → IsTo (λ id. id < n) s.rows
    → m.lead_id ≡ n
    → is_welcome n m ≡ true
    → any (is_welcome n) (flush_new m s).1.rows ≡ true
unfolding flush_new
flush_new_queued n m s h e w =
    rw (no_clash n m s.rows h e) (any-append_true (is_welcome n) s.rows m w)

pub welcome_queued :
    (n now : ℕ) (lead : Lead) (s : Session)
    → IsTo (λ id. id < n) s.rows
    → lead.id ≡ n
    → any (is_welcome n) (welcome now lead s).rows ≡ true
unfolding enqueue
welcome_queued n now lead s h e = flush_new_queued n _ s h e (ground (arith, e))

pub find_above : (n : ℕ) (rows : List Row) → All (λ r. r.lead_id < n) rows → find n rows ≡ none
unfolding find
find_above n [] h = refl
find_above n (r ∷ rows) h = ground (arith, find_above n rows)
