-- ===== src/RedFlags/Groups.antt =====
-- `evaluate` as the flags of the rules grouped by severity, described without a sort.
use ipointel.Base.{
  ◌≤◌, ◌<◌, ◌≡◌, refl, ap, ◌∙◌, inl, inr, List, [], ◌∷◌, arith, All, All-append, filter,
  filter_holds, Bool, true, false, ◌++◌, Bool-cases, leb→le, le→leb,
}
use ipointel.Runtime.{Runtime}
use ipointel.Ipo.{Ipo}
use ipointel.RedFlags.{
  Severity, info, watch, high, critical, Flag, severity_rank, insert, sort, summarize, all_flags,
  evaluate,
}
use ipointel.RedFlags.Order.{first_severity, summarize-evaluate}

-- The test for one severity, by name.
abbrev pub is : Severity → Severity → Bool
is critical critical = true
is high high = true
is watch watch = true
is info info = true
is _ _ = false

abbrev pub has : {F : Type 0} → Severity → Flag F → Bool
has s f = is s f.severity

-- The critical flags, then the high ones, then those to watch, then the rest, each as they come.
abbrev pub grouped : {F : Type 0} → List (Flag F) → List (Flag F)
grouped fs =
    filter (has critical) fs
    ++ (filter (has high) fs ++ (filter (has watch) fs ++ filter (has info) fs))

is_rank : (s t : Severity) → is s t ≡ true → severity_rank t ≡ severity_rank s
is_rank critical critical h = refl
is_rank critical high h = cc
is_rank critical watch h = cc
is_rank critical info h = cc
is_rank high critical h = cc
is_rank high high h = refl
is_rank high watch h = cc
is_rank high info h = cc
is_rank watch critical h = cc
is_rank watch high h = cc
is_rank watch watch h = refl
is_rank watch info h = cc
is_rank info critical h = cc
is_rank info high h = cc
is_rank info watch h = cc
is_rank info info h = refl

-- A flag passes every flag that is worse, and stops before one that is not.
insert-append :
    {F : Type 0}
    → (s : Severity) (f : Flag F) (fs gs : List (Flag F))
    → severity_rank s < severity_rank f.severity
    → All (λ g. has s g ≡ true) fs
    → insert f (fs ++ gs) ≡ fs ++ insert f gs
unfolding insert
insert-append s f [] gs h a = refl
insert-append s f (g ∷ fs) gs h a = ground (
  arith,
  is_rank s g.severity a.0,
  insert-append s f fs gs h a.1,
  leb→le (severity_rank f.severity) (severity_rank g.severity),
)

insert_first :
    {F : Type 0}
    → (f : Flag F) (gs : List (Flag F))
    → All (λ g. severity_rank f.severity ≤ severity_rank g.severity) gs
    → insert f gs ≡ f ∷ gs
unfolding insert
insert_first f [] a = refl
insert_first f (g ∷ gs) a =
    ground (arith, le→leb (severity_rank f.severity) (severity_rank g.severity))

abbrev IsBeyond : {F : Type 0} → Severity → List (Flag F) → Type 0
IsBeyond s fs = All (λ g. severity_rank s ≤ severity_rank g.severity) fs

filter-IsBeyond :
    {F : Type 0}
    → (s t : Severity) (fs : List (Flag F)) → severity_rank s ≤ severity_rank t
    → IsBeyond s (filter (has t) fs)
filter-IsBeyond s t [] h = tt
filter-IsBeyond s t (f ∷ fs) h = elim (Bool-cases (has t f)) [
  | inl e ↦ rw e (omega (arith, h, is_rank t f.severity e), filter-IsBeyond s t fs h)
  | inr e ↦ rw e (filter-IsBeyond s t fs h)
]

-- The groups from one severity on.
abbrev from_watch : {F : Type 0} → List (Flag F) → List (Flag F)
from_watch fs = filter (has watch) fs ++ filter (has info) fs

abbrev from_high : {F : Type 0} → List (Flag F) → List (Flag F)
from_high fs = filter (has high) fs ++ from_watch fs

from_watch-IsBeyond :
    {F : Type 0}
    → (s : Severity) (fs : List (Flag F)) → severity_rank s ≤ 2
    → IsBeyond s (from_watch fs)
from_watch-IsBeyond s fs h =
    All-append _ (filter (has watch) fs) _ (filter-IsBeyond s watch fs h)
      (filter-IsBeyond s info fs (omega (arith, h)))

from_high-IsBeyond :
    {F : Type 0}
    → (s : Severity) (fs : List (Flag F)) → severity_rank s ≤ 1
    → IsBeyond s (from_high fs)
from_high-IsBeyond s fs h =
    All-append _ (filter (has high) fs) _ (filter-IsBeyond s high fs h)
      (from_watch-IsBeyond s fs (omega (arith, h)))

insert-grouped :
    {F : Type 0}
    → (s : Severity) (f : Flag F) (fs : List (Flag F)) → f.severity ≡ s
    → insert f (grouped fs) ≡ grouped (f ∷ fs)
insert-grouped critical f fs e =
    let near = filter-IsBeyond critical critical fs (omega arith) in
    let far = from_high-IsBeyond critical fs (omega arith) in
    simp e (insert_first f (grouped fs) (rw e (All-append _ (filter (has critical) fs) _ near far)))
insert-grouped high f fs e = simp e (
    insert-append critical f (filter (has critical) fs) _ (rw e (omega arith)) (filter_holds _ fs)
    ∙ ap (λ gs. filter (has critical) fs ++ gs)
        (insert_first f (from_high fs) (rw e (from_high-IsBeyond high fs (omega arith)))))
insert-grouped watch f fs e = simp e (
    insert-append critical f (filter (has critical) fs) _ (rw e (omega arith)) (filter_holds _ fs)
    ∙ ap (λ gs. filter (has critical) fs ++ gs)
        (insert-append high f (filter (has high) fs) _ (rw e (omega arith)) (filter_holds _ fs)
          ∙ ap (λ gs. filter (has high) fs ++ gs)
              (insert_first f (from_watch fs) (rw e (from_watch-IsBeyond watch fs (omega arith))))))
insert-grouped info f fs e = simp e (
    insert-append critical f (filter (has critical) fs) _ (rw e (omega arith)) (filter_holds _ fs)
    ∙ ap (λ gs. filter (has critical) fs ++ gs)
        (insert-append high f (filter (has high) fs) _ (rw e (omega arith)) (filter_holds _ fs)
          ∙ ap (λ gs. filter (has high) fs ++ gs)
              (insert-append watch f (filter (has watch) fs) _ (rw e (omega arith))
                  (filter_holds _ fs)
                ∙ ap (λ gs. filter (has watch) fs ++ gs)
                    (insert_first f (filter (has info) fs)
                      (rw e (filter-IsBeyond info info fs (omega arith)))))))

sort-grouped : {F : Type 0} → (fs : List (Flag F)) → sort fs ≡ grouped fs
unfolding sort
sort-grouped [] = refl
sort-grouped (f ∷ fs) = ap (insert f) (sort-grouped fs) ∙ insert-grouped f.severity f fs refl

module _ (py : Runtime) where
  -- `evaluate` lists what the rules raise by severity: first every critical flag, then every high one,
  -- then those to watch and those for information, and within a severity in the order of the rules;
  -- the worst severity of the summary is that of the first flag.
  pub evaluate-grouped :
      (ipo : Ipo py.F)
      → (evaluate py ipo ≡ grouped (all_flags py ipo))
        × ((summarize (evaluate py ipo)).worst ≡ first_severity (grouped (all_flags py ipo)))
  unfolding evaluate
  evaluate-grouped ipo = (
    sort-grouped (all_flags py ipo),
    (summarize-evaluate py ipo).0 ∙ ap first_severity (sort-grouped (all_flags py ipo)),
  )
