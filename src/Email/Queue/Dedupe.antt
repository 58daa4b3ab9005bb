-- ===== src/Email/Queue/Dedupe.antt =====
-- `enqueue` and the unique constraint: at most one message to a lead, template and key; and what a
-- refused message takes with it.
use ipointel.Base.{
  ℕ, String, ◌≡◌, refl, sym, ◌↔◌, inl, inr, true, false, All, All-append, is_empty, some,
  if◌then◌else◌, Option, none, List, [], ◌∷◌, ◌++◌, arith, any, Bool-cases, eq_iff,
}
use ipointel.Email.{Message, Lead}
use ipointel.Email.Queue.{Session, clash, flush_new, enqueue, rollback}

-- A message to this lead from this template with this key.
abbrev pub Same : ℕ → String → String → Message → Type 0
Same lead template key r = (r.lead_id ≡ lead) × ((r.template ≡ template) × (r.dedupe_key ≡ key))

abbrev pub IsFresh : Message → List Message → Type 0
IsFresh m ms = All (λ r. ¬ Same m.lead_id m.template m.dedupe_key r) ms

-- No two rows share lead, template and dedupe key.
abbrev pub IsDeduped : List Message → Type 0
IsDeduped [] = Unit
IsDeduped (m ∷ ms) = IsFresh m ms × IsDeduped ms

clash_iff : (m r : Message) → (clash m r ≡ true) ↔ Same m.lead_id m.template m.dedupe_key r
unfolding clash
clash_iff m r = (
  λ h. (
    ground arith,
    (
      ground (arith, eq_iff m.template r.template),
      ground (arith, eq_iff m.dedupe_key r.dedupe_key),
    ),
  ),
  λ h.
      ground
        (arith, h.0, h.1.0, h.1.1, eq_iff m.template r.template, eq_iff m.dedupe_key r.dedupe_key),
)

none_clash : (m : Message) (ms : List Message) → any (clash m) ms ≡ false → IsFresh m ms
none_clash m [] h = tt
none_clash m (r ∷ ms) h =
    (λ same. ground (arith, (clash_iff m r).1 same), none_clash m ms (ground arith))

some_clash : (m : Message) (ms : List Message) → any (clash m) ms ≡ true → ¬ IsFresh m ms
some_clash m [] h f = cc
some_clash m (r ∷ ms) h f = elim (Bool-cases (clash m r)) [
  | inl this ↦ f.0 ((clash_iff m r).0 this)
  | inr other ↦ some_clash m ms (ground arith) f.1
]

append_one-IsDeduped :
    (m : Message) (ms : List Message) → IsFresh m ms → IsDeduped ms → IsDeduped (ms ++ m ∷ [])
append_one-IsDeduped m [] f d = (tt, tt)
append_one-IsDeduped m (x ∷ xs) f d = (
  All-append _ xs _ d.0 (λ same. f.0 (sym same.0, (sym same.1.0, sym same.1.1)), tt),
  append_one-IsDeduped m xs f.1 d.1,
)

flush_new-IsDeduped :
    (m : Message) (s : Session)
    → IsDeduped s.rows
    → IsDeduped s.committed
    → let s' = (flush_new m s).1 in
      IsDeduped s'.rows × IsDeduped s'.committed × (s'.committed ≡ s.committed)
unfolding flush_new
flush_new-IsDeduped m s d c = elim (Bool-cases (any (clash m) s.rows)) [
  | inl again ↦ rw again (c, c, refl)
  | inr first ↦ rw first (append_one-IsDeduped m s.rows (none_clash m s.rows first) d, c, refl)
]

flush_new_refused :
    (m : Message) (s : Session) → (flush_new m s).0 ≡ none → (flush_new m s).1.rows ≡ s.committed
unfolding flush_new
flush_new_refused m s r = ground arith

-- What the code sends under: `dedupe_key or template`.
abbrev pub key_or_template : String → String → String
key_or_template key template = if is_empty key then template else key

-- A message was queued, as the first one of its kind, or refused because there is one already: then
-- the session is back at what is committed.
abbrev pub Once : ℕ → String → String → Session → Option Message × Session → Type 0
Once lead template key s (none, s') =
    (¬ All (λ r. ¬ Same lead template key r) s.rows) × (s'.rows ≡ s.committed)
Once lead template key s (some m, s') =
    All (λ r. ¬ Same lead template key r) s.rows
    × (Same lead template key m × (s'.rows ≡ s.rows ++ m ∷ []))

flush_new-Once :
    (m : Message) (s : Session) → Once m.lead_id m.template m.dedupe_key s (flush_new m s)
unfolding flush_new rollback
flush_new-Once m s = elim (Bool-cases (any (clash m) s.rows)) [
  | inl again ↦ rw again (some_clash m s.rows again, refl)
  | inr first ↦ rw first (none_clash m s.rows first, ((refl, (refl, refl)), refl))
]

-- `enqueue` queues a message exactly if the session has none to this lead, from this template and with
-- this key, the template standing in for a key that is empty. It then adds that one row; else the
-- session falls back to what is committed. So where no two rows were alike, none are after it, and what
-- is committed is never touched.
pub enqueue-Once :
    (lead : Lead) (template : String) (priority : ℕ) (key : String) (ipo snapshot : Option ℕ)
    (hint : String) (now : ℕ) (s : Session)
    → IsDeduped s.rows
    → IsDeduped s.committed
    → let result = enqueue lead template priority key ipo snapshot hint now s in
      Once lead.id template (key_or_template key template) s result
      × (IsDeduped result.1.rows
          × (IsDeduped result.1.committed × (result.1.committed ≡ s.committed)))
unfolding enqueue
enqueue-Once lead template priority key ipo snapshot hint now s d c =
    let (rows, committed, same) = flush_new-IsDeduped _ s d c in
    (flush_new-Once _ s, (rows, (committed, same)))

-- A message that is refused as a duplicate undoes every earlier change of the transaction: what the
-- session then sees is just what is committed, also where messages were accepted since.
pub enqueue_refused :
    (lead : Lead) (template : String) (priority : ℕ) (key : String) (ipo snapshot : Option ℕ)
    (hint : String) (now : ℕ) (s : Session)
    → (enqueue lead template priority key ipo snapshot hint now s).0 ≡ none
    → (enqueue lead template priority key ipo snapshot hint now s).1.rows ≡ s.committed
unfolding enqueue
enqueue_refused lead template priority key ipo snapshot hint now s r = flush_new_refused _ s r

flush_new-committed : (m : Message) (s : Session) → (flush_new m s).1.committed ≡ s.committed
unfolding flush_new
flush_new-committed m s = ground arith

pub enqueue-committed :
    (lead : Lead) (template : String) (priority : ℕ) (key : String) (ipo snapshot : Option ℕ)
    (hint : String) (now : ℕ) (s : Session)
    → (enqueue lead template priority key ipo snapshot hint now s).1.committed ≡ s.committed
unfolding enqueue
enqueue-committed lead template priority key ipo snapshot hint now s = flush_new-committed _ s
