-- ===== src/Email/Alerts/Rollback.antt =====
-- What a refused duplicate does to the alerts that were queued before it in the same transaction.
use ipointel.Base.{
  ℕ, String, ◌≡◌, refl, ap, ◌∙◌, inl, inr, true, ◌&&◌, none, some, List, [], ◌∷◌, ◌++◌, arith,
  Bool-cases,
}
use ipointel.Email.{Lead}
use ipointel.Email.Queue.{Session, enqueue}
use ipointel.Email.Queue.Dedupe.{enqueue-committed, enqueue_refused}
use ipointel.Email.Alerts.{
  AlertKind, template_of, priority_of, matches_market, wants, counted, queue_one, queue_leads,
}

module _ (kind : AlertKind) (ipo_id snapshot_id : ℕ) (key country : String) (now : ℕ) where
  queue_one-committed :
      (lead : Lead) (s : Session)
      → (queue_one kind ipo_id snapshot_id key country now lead s).1.committed ≡ s.committed
  unfolding queue_one
  queue_one-committed lead s = elim (Bool-cases (matches_market lead country && wants lead kind)) [
    | inl wanted ↦ rw wanted (enqueue-committed lead _ _ key _ _ "" now s)
    | inr unwanted ↦ rw unwanted
  ]

  queue_leads-committed :
      (leads : List Lead) (n : ℕ) (s : Session)
      → (queue_leads kind ipo_id snapshot_id key country now leads (n, s)).1.committed ≡ s.committed
  unfolding queue_leads
  queue_leads-committed [] n s = refl
  queue_leads-committed (lead ∷ leads) n s =
      queue_leads-committed leads _ _ ∙ queue_one-committed lead s

  queue_leads-append :
      (leads more : List Lead) (acc : ℕ × Session)
      → queue_leads kind ipo_id snapshot_id key country now (leads ++ more) acc
        ≡ queue_leads kind ipo_id snapshot_id key country now more
            (queue_leads kind ipo_id snapshot_id key country now leads acc)
  unfolding queue_leads
  queue_leads-append [] more acc = refl
  queue_leads-append (lead ∷ leads) more (n, s) = queue_leads-append leads more _

  -- Where the last lead of the loop wants the alert and has had it before, the refusal takes the
  -- alerts of all leads before it out of the session again, back to what was committed, though the
  -- count that the loop returns still holds them.
  pub queue_leads_lost :
      (leads : List Lead) (last : Lead) (n : ℕ) (s : Session)
      → (matches_market last country && wants last kind) ≡ true
      → (let s' = (queue_leads kind ipo_id snapshot_id key country now leads (n, s)).1 in
          (enqueue last
            (template_of kind)
            (priority_of kind)
            key
            (some ipo_id)
            (some snapshot_id)
            ""
            now
            s').0
          ≡ none)
      → let before = queue_leads kind ipo_id snapshot_id key country now leads (n, s) in
        let after =
          queue_leads kind ipo_id snapshot_id key country now (leads ++ last ∷ []) (n, s) in
        (after.0 ≡ before.0) × (after.1.rows ≡ s.committed)
  queue_leads_lost leads last n s wanted refused =
      let before = queue_leads kind ipo_id snapshot_id key country now leads (n, s) in
      let (same_count, rolled) = one_more before.0 before.1 refused in
      let joined = queue_leads-append leads (last ∷ []) (n, s) in
      (
        ap (λ r. r.0) joined ∙ same_count,
        ap (λ r. r.1.rows) joined ∙ (rolled ∙ queue_leads-committed leads n s),
      )
    where
      one_more :
          (m : ℕ) (t : Session)
          → (enqueue last
              (template_of kind)
              (priority_of kind)
              key
              (some ipo_id)
              (some snapshot_id)
              ""
              now
              t).0
            ≡ none
          → let r = queue_leads kind ipo_id snapshot_id key country now (last ∷ []) (m, t) in
            (r.0 ≡ m) × (r.1.rows ≡ t.committed)
      one_more m t e =
          unfold queue_leads queue_one in
          rw wanted (
            omega (arith, ap counted e),
            enqueue_refused last (template_of kind) (priority_of kind) key (some ipo_id)
                (some snapshot_id) "" now t e,
          )
