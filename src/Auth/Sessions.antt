-- ===== src/Auth/Sessions.antt =====
-- Revoked sessions let nobody in.
use ipointel.Base.{
  ℕ, String, ◌≡◌, ◌≢◌, refl, sym, ap, subst, ◌∙◌, inl, inr, Bool, true, false, not, ◌&&◌, ◌||◌,
  Option, none, some, List, [], ◌∷◌, arith, ltb, is_some, is_empty, Bool-cases, some_injective,
}
use text.Mathlib.Text.{◌==◌}
use ipointel.Auth.{
  Account, AuthSession, Tables, find_session, revoke_all_sessions, same_id, is_active, if_active,
  check_session, get_lead_from_session, find_account,
}

find_account_id :
    (id : ℕ) (rows : List Account) (a : Account) → find_account id rows ≡ some a → a.id ≡ id
unfolding find_account
find_account_id id [] a = λ e. ground arith
find_account_id id (b ∷ rows) a = elim (Bool-cases (same_id b.id id)) [
  | inl k ↦ rw k (λ e. rw (sym (some_injective b a e)) (ground arith))
  | inr k ↦ rw k (λ e. find_account_id id rows a e)
]

untouched : (lead id : ℕ) (b : Bool) → lead ≡ id → (same_id lead id && not b) ≡ false → b ≡ true
untouched lead id b h k = ground arith

find_revoked :
    (h : String) (now id : ℕ) (ss : List AuthSession) (s : AuthSession)
    → find_session h (revoke_all_sessions now id ss) ≡ some s
    → s.lead_id ≡ id
    → is_some s.revoked_at ≡ true
unfolding find_session revoke_all_sessions
find_revoked h now id [] s = λ e k. ground arith
find_revoked h now id (u ∷ us) s =
    elim (Bool-cases (same_id u.lead_id id && not (is_some u.revoked_at))) [
      | inl c ↦ rw c (elim (Bool-cases (u.session_hash == h)) [
        | inl k ↦ rw k (λ e j.
            subst (λ x. is_some x.revoked_at ≡ true)
              (some_injective (record u { revoked_at = some now }) s e) refl)
        | inr k ↦ rw k (find_revoked h now id us s)
      ])
      | inr c ↦ rw c (elim (Bool-cases (u.session_hash == h)) [
        | inl k ↦ rw k (λ e j.
            let same = some_injective u s e in
            subst (λ x. is_some x.revoked_at ≡ true) same
              (untouched u.lead_id id (is_some u.revoked_at) (ap (λ x. x.lead_id) same ∙ j) c))
        | inr k ↦ rw k (find_revoked h now id us s)
      ])
    ]

if_active-some : (o : Option Account) (a : Account) → if_active o ≡ some a → o ≡ some a
if_active-some none a = λ e. ground arith
if_active-some (some b) a = elim (Bool-cases (is_active b.access_status)) [
  | inl k ↦ rw k (λ e. e)
  | inr k ↦ rw k (λ e. ground arith)
]

check-some :
    (now : ℕ) (db : Tables) (o : Option AuthSession) (a : Account)
    → check_session now db o ≡ some a
    → (s : AuthSession) × (o ≡ some s)
      × (is_some s.revoked_at ≡ false)
      × (find_account s.lead_id db.accounts ≡ some a)
unfolding check_session
check-some now db none a = λ e. ground arith
check-some now db (some s) a = elim (Bool-cases (is_some s.revoked_at || ltb s.expires_at now)) [
  | inl k ↦ rw k (λ e. ground arith)
  | inr k ↦
      rw k (λ e. (s, refl, ground arith, if_active-some (find_account s.lead_id db.accounts) a e))
]

-- Once all sessions of a lead are revoked, no session lets that lead in, at any later time.
pub revoked_out :
    (hash : String → String) (raw : String) (now later id : ℕ) (db : Tables) (a : Account)
    → get_lead_from_session hash raw later
        (record db { sessions = revoke_all_sessions now id db.sessions })
      ≡ some a
    → a.id ≢ id
unfolding get_lead_from_session
revoked_out hash raw now later id db a = elim (Bool-cases (is_empty raw)) [
  | inl k ↦ rw k (λ e. ground arith)
  | inr k ↦ rw k (λ e j.
      let db' = record db { sessions = revoke_all_sessions now id db.sessions } in
      let (s, f, live, owner) = check-some later db' (find_session (hash raw) db'.sessions) a e in
      let gone =
        find_revoked (hash raw) now id db.sessions s f
          (sym (find_account_id s.lead_id db.accounts a owner) ∙ j) in
      ground (arith, gone, live))
]
