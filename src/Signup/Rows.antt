-- ===== src/Signup/Rows.antt =====
-- The table of the leads: what a write of a sign-up keeps.
use text.Mathlib.Text.{◌==◌ as str_eq}
use ipointel.Base.{
  ◌≢◌, ◌∙◌, subst, sym, ℕ, ◌<◌, ◌≡◌, refl, inl, inr, String, true, false, none, some, List, [], ◌∷◌,
  ◌++◌, arith, ◌==◌, any, All, All-append, Bool-cases, if◌then◌else◌, eq_iff,
}
use ipointel.Signup.{Subscriber, Payload, find_email, update_email, renewed, is_taken}

-- No two rows have the same value of a column.
abbrev pub IsUnique : (Subscriber → String) → List Subscriber → Type 0
IsUnique column [] = Unit
IsUnique column (s ∷ subs) = All (λ t. column s ≢ column t) subs × IsUnique column subs

pub append_one-IsUnique :
    (column : Subscriber → String) (subs : List Subscriber) (new : Subscriber)
    → All (λ s. column s ≢ column new) subs
    → IsUnique column subs
    → IsUnique column (subs ++ new ∷ [])
append_one-IsUnique column [] new h u = (tt, tt)
append_one-IsUnique column (s ∷ subs) new h u =
    (All-append _ subs _ u.0 (h.0, tt), append_one-IsUnique column subs new h.1 u.1)

-- A row that the table does not refuse has new values in all three columns.
pub none_taken :
    (new : Subscriber) (subs : List Subscriber)
    → any (is_taken new) subs ≡ false
    → All (λ s. s.lead.email ≢ new.lead.email) subs
      × (All (λ s. s.referral_code ≢ new.referral_code) subs
          × All (λ s. s.unsubscribe_token ≢ new.unsubscribe_token) subs)
none_taken new [] h = (tt, (tt, tt))
none_taken new (s ∷ subs) h =
    let (emails, (codes, tokens)) = none_taken new subs (ground arith) in
    (
      (λ e. ground (arith, eq_iff s.lead.email new.lead.email), emails),
      (
        (λ e. ground (arith, eq_iff s.referral_code new.referral_code), codes),
        (λ e. ground (arith, eq_iff s.unsubscribe_token new.unsubscribe_token), tokens),
      ),
    )

-- Whether the code or the token is another lead's.
abbrev pub IsFree : String → String → List Subscriber → Type 0
IsFree code token subs = All (λ s. (s.referral_code ≢ code) × (s.unsubscribe_token ≢ token)) subs

pub free-is_taken :
    (new : Subscriber) (subs : List Subscriber)
    → find_email new.lead.email subs ≡ none
    → IsFree new.referral_code new.unsubscribe_token subs
    → any (is_taken new) subs ≡ false
unfolding find_email
free-is_taken new [] e f = refl
free-is_taken new (s ∷ subs) e f = ground (
  arith,
  eq_iff s.referral_code new.referral_code,
  eq_iff s.unsubscribe_token new.unsubscribe_token,
  f.0.0,
  f.0.1,
  free-is_taken new subs,
  f.1,
)

find_email-append_one :
    (email : String) (subs : List Subscriber) (s : Subscriber)
    → find_email email subs ≡ none
    → find_email email (subs ++ s ∷ []) ≡ (if str_eq s.lead.email email then some s else none)
unfolding find_email
find_email-append_one email [] s h = refl
find_email-append_one email (x ∷ subs) s h = ground (arith, find_email-append_one email subs s)

pub find_email-append_new :
    (subs : List Subscriber) (s : Subscriber)
    → find_email s.lead.email subs ≡ none
    → find_email s.lead.email (subs ++ s ∷ []) ≡ some s
find_email-append_new subs s h =
    ground (arith, find_email-append_one s.lead.email subs s h, eq_iff s.lead.email s.lead.email)

-- A column that the change keeps.
update_email-All :
    (column : Subscriber → String) (value email : String) (p : Payload) (subs : List Subscriber)
    → ((s : Subscriber) → column (renewed p s) ≡ column s)
    → All (λ s. value ≢ column s) subs
    → All (λ s. value ≢ column s) (update_email email (renewed p) subs)
unfolding update_email
update_email-All column value email p [] k h = tt
update_email-All column value email p (s ∷ subs) k h =
    elim (Bool-cases (str_eq s.lead.email email)) [
      | inl here ↦ rw here (λ e. h.0 (e ∙ k s), h.1)
      | inr there ↦ rw there (h.0, update_email-All column value email p subs k h.1)
    ]

pub update_email-IsUnique :
    (column : Subscriber → String) (email : String) (p : Payload) (subs : List Subscriber)
    → ((s : Subscriber) → column (renewed p s) ≡ column s)
    → IsUnique column subs
    → IsUnique column (update_email email (renewed p) subs)
unfolding update_email
update_email-IsUnique column email p [] k u = tt
update_email-IsUnique column email p (s ∷ subs) k u =
    elim (Bool-cases (str_eq s.lead.email email)) [
      | inl here ↦ rw here (subst (λ v. All (λ t. v ≢ column t) subs) (sym (k s)) u.0, u.1)
      | inr there ↦ rw there (
        update_email-All column (column s) email p subs k u.0,
        update_email-IsUnique column email p subs k u.1,
      )
    ]

-- Some lead has this id.
abbrev pub IsKnown : List Subscriber → ℕ → Type 0
IsKnown subs id = any (λ s. s.lead.id == id) subs ≡ true

pub update_email-IsKnown :
    (email : String) (p : Payload) (subs : List Subscriber) (id : ℕ)
    → IsKnown subs id
    → IsKnown (update_email email (renewed p) subs) id
unfolding update_email
update_email-IsKnown email p [] id k = k
update_email-IsKnown email p (s ∷ subs) id k = elim (Bool-cases (str_eq s.lead.email email)) [
  | inl here ↦ rw here k
  | inr there ↦ rw there (ground (arith, update_email-IsKnown email p subs id))
]

pub append-IsKnown :
    (subs new : List Subscriber) (id : ℕ) → IsKnown subs id → IsKnown (subs ++ new) id
append-IsKnown [] new id k = cc
append-IsKnown (s ∷ subs) new id k = ground (arith, append-IsKnown subs new id)

pub append_one-IsKnown :
    (subs : List Subscriber) (s : Subscriber) → IsKnown (subs ++ s ∷ []) s.lead.id
append_one-IsKnown [] s = ground arith
append_one-IsKnown (x ∷ subs) s = ground (arith, append_one-IsKnown subs s)

pub find_email-IsKnown :
    (email : String) (subs : List Subscriber) (s : Subscriber)
    → find_email email subs ≡ some s
    → IsKnown subs s.lead.id
unfolding find_email
find_email-IsKnown email [] s e = cc
find_email-IsKnown email (x ∷ subs) s e = ground (arith, find_email-IsKnown email subs s)

-- An id that a lead has is below one that no lead has reached.
pub known_below :
    (n : ℕ) (subs : List Subscriber) (id : ℕ)
    → All (λ s. s.lead.id < n) subs
    → IsKnown subs id
    → id < n
known_below n [] id h k = cc
known_below n (s ∷ subs) id h k = ground (arith, known_below n subs id)

pub update_email-below :
    (n : ℕ) (email : String) (p : Payload) (subs : List Subscriber)
    → All (λ s. s.lead.id < n) subs
    → All (λ s. s.lead.id < n) (update_email email (renewed p) subs)
unfolding update_email
update_email-below n email p [] h = tt
update_email-below n email p (s ∷ subs) h = elim (Bool-cases (str_eq s.lead.email email)) [
  | inl here ↦ rw here h
  | inr there ↦ rw there (h.0, update_email-below n email p subs h.1)
]
