-- ===== src/RedFlags/Order.antt =====
-- The order of the flags of `evaluate`, and what the summary says of them.
use ipointel.Base.{
  ℕ, ◌+◌, ◌≤◌, ◌<◌, ◌≡◌, refl, inl, inr, Option, none, some, List, [], ◌∷◌, arith, leb, length,
  if◌then◌else◌, Bool-cases, leb→le, le→leb,
}
use ipointel.Runtime.{Runtime}
use ipointel.Ipo.{Ipo}
use ipointel.RedFlags.{
  Severity, info, watch, high, critical, Flag, severity_rank, insert, sort, count, worst_of,
  summarize, all_flags, evaluate, same_severity,
}

abbrev pub first_severity : {F : Type 0} → List (Flag F) → Option Severity
first_severity [] = none
first_severity (f ∷ fs) = some f.severity

-- No flag is worse than one before it.
abbrev pub IsOrdered : {F : Type 0} → ℕ → List (Flag F) → Type 0
IsOrdered lo [] = Unit
IsOrdered lo (f ∷ fs) = (lo ≤ severity_rank f.severity) × IsOrdered (severity_rank f.severity) fs

insert-IsOrdered :
    {F : Type 0}
    → (lo : ℕ) (f : Flag F) (fs : List (Flag F)) → lo ≤ severity_rank f.severity
    → IsOrdered lo fs
    → IsOrdered lo (insert f fs)
unfolding insert
insert-IsOrdered lo f [] h o = (h, tt)
insert-IsOrdered lo f (g ∷ gs) h o =
    elim (Bool-cases (leb (severity_rank f.severity) (severity_rank g.severity))) [
      | inl e ↦ rw e (h, (leb→le (severity_rank f.severity) (severity_rank g.severity) e, o.1))
      | inr e ↦ rw e (
        o.0,
        insert-IsOrdered (severity_rank g.severity) f gs
            (ground (arith, le→leb (severity_rank f.severity) (severity_rank g.severity))) o.1,
      )
    ]

sort-IsOrdered : {F : Type 0} → (fs : List (Flag F)) → IsOrdered 0 (sort fs)
unfolding sort
sort-IsOrdered [] = tt
sort-IsOrdered (f ∷ fs) = insert-IsOrdered 0 f (sort fs) (omega arith) (sort-IsOrdered fs)

count-insert :
    {F : Type 0}
    → (s : Severity) (f : Flag F) (fs : List (Flag F)) → count s (insert f fs) ≡ count s (f ∷ fs)
unfolding insert count
count-insert s f [] = refl
count-insert s f (g ∷ gs) =
    elim (Bool-cases (leb (severity_rank f.severity) (severity_rank g.severity))) [
      | inl e ↦ rw e refl
      | inr e ↦ rw e (ground (arith, count-insert s f gs))
    ]

count-sort : {F : Type 0} → (s : Severity) (fs : List (Flag F)) → count s (sort fs) ≡ count s fs
unfolding sort count
count-sort s [] = refl
count-sort s (f ∷ fs) = ground (arith, count-insert s f (sort fs), count-sort s fs)

count-below :
    {F : Type 0}
    → (s : Severity) (lo : ℕ) (fs : List (Flag F)) → severity_rank s < lo
    → IsOrdered lo fs
    → count s fs ≡ 0
unfolding count
count-below s lo [] h o = refl
count-below s lo (f ∷ fs) h o =
    ground (arith, o.0, count-below s (severity_rank f.severity) fs (omega (arith, h, o.0)) o.1)

worst_of-first :
    {F : Type 0}
    → (s : Severity) (f : Flag F) (fs : List (Flag F)) → f.severity ≡ s
    → IsOrdered (severity_rank s) fs
    → worst_of (f ∷ fs) ≡ some s
unfolding worst_of count
worst_of-first critical f fs e o = rw e (ground arith)
worst_of-first high f fs e o = rw e (ground (arith, count-below critical 1 fs (omega arith) o))
worst_of-first watch f fs e o = rw e (
    ground
      (arith, count-below critical 2 fs (omega arith) o, count-below high 2 fs (omega arith) o))
worst_of-first info f fs e o = rw e (
    ground (
      arith,
      count-below critical 3 fs (omega arith) o,
      count-below high 3 fs (omega arith) o,
      count-below watch 3 fs (omega arith) o,
    ))

worst_of-ordered :
    {F : Type 0} → (fs : List (Flag F)) → IsOrdered 0 fs → worst_of fs ≡ first_severity fs
unfolding worst_of count
worst_of-ordered [] o = refl
worst_of-ordered (f ∷ fs) o = worst_of-first f.severity f fs refl o.1

one_each :
    (s : Severity)
    → (if same_severity info s then 1 else 0)
        + (if same_severity watch s then 1 else 0)
        + (if same_severity high s then 1 else 0)
        + (if same_severity critical s then 1 else 0)
      ≡ 1
one_each critical = refl
one_each high = refl
one_each watch = refl
one_each info = refl

total_lem :
    {F : Type 0}
    → (fs : List (Flag F))
    → count info fs + count watch fs + count high fs + count critical fs ≡ length fs
unfolding count
total_lem [] = refl
total_lem (f ∷ fs) = omega (arith, one_each f.severity, total_lem fs)

module _ (py : Runtime) where
  -- `evaluate` sorts what the rules raise: no flag is worse than one before it, and of each severity
  -- there are as many as the rules raised.
  pub evaluate-IsOrdered :
      (ipo : Ipo py.F)
      → IsOrdered 0 (evaluate py ipo)
        × ((s : Severity) → count s (evaluate py ipo) ≡ count s (all_flags py ipo))
  unfolding evaluate
  evaluate-IsOrdered ipo = (sort-IsOrdered (all_flags py ipo), λ s. count-sort s (all_flags py ipo))

  -- The summary of `evaluate` names the severity of the first flag as the worst, none where there is
  -- no flag, and its four counts add up to the number of flags.
  pub summarize-evaluate :
      (ipo : Ipo py.F)
      → let s = summarize (evaluate py ipo) in
        (s.worst ≡ first_severity (evaluate py ipo))
        × (s.info_count + s.watch_count + s.high_count + s.critical_count ≡ s.total)
  unfolding summarize
  summarize-evaluate ipo =
      (worst_of-ordered (evaluate py ipo) (evaluate-IsOrdered ipo).0, total_lem (evaluate py ipo))
