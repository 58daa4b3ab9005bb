-- ===== src/Auth/Tokens.antt =====
-- A login token works once.
use ipointel.Base.{
  ℕ, String, ◌≡◌, refl, ap, ◌∙◌, inl, inr, false, Option, none, some, List, [], ◌∷◌, arith, ltb,
  is_some, Bool-cases,
}
use text.Mathlib.Text.{◌==◌}
use ipointel.Auth.{
  Account, LoginToken, Tables, refused, granted, already_used, find_token, use_token, admit,
  check_token, redeem_login_token, is_disabled, find_account,
}

find_token-use_token :
    (h : String) (now : ℕ) (ts : List LoginToken) (t : LoginToken)
    → find_token h ts ≡ some t
    → find_token h (use_token h now ts) ≡ some (record t { used_at = some now })
unfolding find_token use_token
find_token-use_token h now [] t = λ e. ground arith
find_token-use_token h now (u ∷ us) t = elim (Bool-cases (u.token_hash == h)) [
  | inl k ↦ rw k (λ e. rw k (ground (arith, e)))
  | inr k ↦ rw k (λ e. rw k (find_token-use_token h now us t e))
]

module _ (hash : String → String) where
  admit_granted :
      (raw : String) (now : ℕ) (db : Tables) (o : Option Account) (a : Account)
      → (admit hash raw now db o).0 ≡ granted a
      → (admit hash raw now db o).1.tokens ≡ use_token (hash raw) now db.tokens
  unfolding admit
  admit_granted raw now db none a = λ e. ground arith
  admit_granted raw now db (some b) a = elim (Bool-cases (is_disabled b.access_status)) [
    | inl k ↦ rw k (λ e. ground arith)
    | inr k ↦ rw k (λ e. refl)
  ]

  none_there : {A : Type 0} (o : Option A) → is_some o ≡ false → o ≡ none
  none_there none h = refl
  none_there (some a) h = ground arith

  used_check :
      (raw : String) (now : ℕ) (db : Tables) (o : Option LoginToken) (t : LoginToken) (at : ℕ)
      → o ≡ some t
      → t.used_at ≡ some at
      → check_token hash raw now db o ≡ (refused already_used, db)
  unfolding check_token
  used_check raw now db o t at e h = rw (e, h) refl

  check_granted :
      (raw : String) (now : ℕ) (db : Tables) (o : Option LoginToken) (a : Account)
      → find_token (hash raw) db.tokens ≡ o
      → (check_token hash raw now db o).0 ≡ granted a
      → (t : LoginToken) × (find_token (hash raw) db.tokens ≡ some t)
        × (t.used_at ≡ none)
        × (t.revoked_at ≡ none)
        × (ltb t.expires_at now ≡ false)
        × ((check_token hash raw now db o).1.tokens ≡ use_token (hash raw) now db.tokens)
  unfolding check_token
  check_granted raw now db none a f = λ e. ground arith
  check_granted raw now db (some t) a f = elim (Bool-cases (is_some t.used_at)) [
    | inl u ↦ rw u (λ e. ground arith)
    | inr u ↦ rw u (elim (Bool-cases (is_some t.revoked_at)) [
      | inl v ↦ rw v (λ e. ground arith)
      | inr v ↦ rw v (elim (Bool-cases (ltb t.expires_at now)) [
        | inl w ↦ rw w (λ e. ground arith)
        | inr w ↦ rw w (λ e. (
          t,
          f,
          none_there t.used_at u,
          none_there t.revoked_at v,
          w,
          admit_granted raw now db (find_account t.lead_id db.accounts) a e,
        ))
      ])
    ])
  ]

  -- A login token that is granted was unused, not revoked and not expired, and no later attempt is
  -- granted on it: it is refused as used already, and changes nothing.
  pub redeem_once :
      (raw : String) (now later : ℕ) (db : Tables) (a : Account)
      → (redeem_login_token hash raw now db).0 ≡ granted a
      → let db' = (redeem_login_token hash raw now db).1 in
        ((t : LoginToken) × (find_token (hash raw) db.tokens ≡ some t)
          × (t.used_at ≡ none)
          × (t.revoked_at ≡ none)
          × (ltb t.expires_at now ≡ false))
        × (redeem_login_token hash raw later db' ≡ (refused already_used, db'))
  unfolding redeem_login_token
  redeem_once raw now later db a e =
      let (t, f, u, v, w, written) =
        check_granted raw now db (find_token (hash raw) db.tokens) a refl e in
      (
        (t, f, u, v, w),
        used_check raw later (redeem_login_token hash raw now db).1
            (find_token (hash raw) (redeem_login_token hash raw now db).1.tokens)
            (record t { used_at = some now }) now
            (ap (find_token (hash raw)) written ∙ find_token-use_token (hash raw) now db.tokens t f)
            refl,
      )
