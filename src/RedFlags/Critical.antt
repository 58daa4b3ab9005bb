-- ===== src/RedFlags/Critical.antt =====
-- The one critical rule of `evaluate`.
use ipointel.Base.{
  ◌+◌, String, ◌≡◌, refl, ◌∙◌, Bool, true, false, List, [], ◌∷◌, ◌++◌, arith, if◌then◌else◌,
}
use ipointel.Runtime.{Runtime}
use ipointel.Ipo.{Ipo}
use ipointel.RedFlags.{
  Severity, critical, Flag, Metric, count, same_severity, flag, is_inverted, all_flags,
  financial_flags, structure_flags, governance_flags, demand_flags, band_flags, evaluate,
}
use ipointel.RedFlags.Order.{evaluate-IsOrdered}

count-append :
    {F : Type 0}
    → (s : Severity) (xs ys : List (Flag F)) → count s (xs ++ ys) ≡ count s xs + count s ys
unfolding count
count-append s [] ys = omega arith
count-append s (x ∷ xs) ys = omega (arith, count-append s xs ys)

count-append_none :
    {F : Type 0}
    → (xs ys : List (Flag F)) → count critical xs ≡ 0
    → count critical (xs ++ ys) ≡ count critical ys
count-append_none xs ys h = omega (arith, count-append critical xs ys, h)

module _ (py : Runtime) (ipo : Ipo py.F) where
  count-flag :
      (b : Bool) (code : String) (s : Severity) (field : String) (value : Metric py.F)
      → same_severity critical s ≡ false
      → count critical (flag py ipo b code s field value) ≡ 0
  unfolding flag count
  count-flag true code s field value e = rw e refl
  count-flag false code s field value e = refl

  financial_none : count critical (financial_flags py ipo) ≡ 0
  unfolding financial_flags
  financial_none = simp (count-append, count-flag)

  structure_none : count critical (structure_flags py ipo) ≡ 0
  unfolding structure_flags
  structure_none = simp (count-append, count-flag)

  governance_none : count critical (governance_flags py ipo) ≡ 0
  unfolding governance_flags
  governance_none = simp (count-append, count-flag)

  demand_none : count critical (demand_flags py ipo) ≡ 0
  unfolding demand_flags
  demand_none = simp (count-append, count-flag)

  band_count : count critical (band_flags py ipo) ≡ (if is_inverted py ipo then 1 else 0)
  unfolding band_flags flag count
  band_count = ground arith

  -- An IPO has a critical flag exactly if its price band is inverted, and then one.
  pub critical_iff_inverted :
      count critical (evaluate py ipo) ≡ (if is_inverted py ipo then 1 else 0)
  unfolding all_flags
  critical_iff_inverted =
      (evaluate-IsOrdered py ipo).1 critical
      ∙ (count-append_none (financial_flags py ipo) _ financial_none
          ∙ (count-append_none (structure_flags py ipo) _ structure_none
              ∙ (count-append_none (governance_flags py ipo) _ governance_none
                  ∙ (count-append_none (demand_flags py ipo) _ demand_none ∙ band_count))))
