-- ===== src/Plans/Form/Laws.antt =====
-- Whatever is edited in a plan form, the server takes the shape of what it submits.
use dopacrm.Base.{
  ◌≡◌, refl, sym, includes, Bool, true, false, String, Option, none, some, List, [], ◌∷◌, map,
  is_some, ◌==◌, All, ◌⊎◌, inl, inr, arith, string_eq,
}
use mathlib.Core.Bool.{false≢true}
use dopacrm.Base.Integers.{ℤ}
use dopacrm.Base.Scan.{Number, nan, whole}
use dopacrm.Server.Plans.{
  PlanType, BillingPeriod, plan_type_eq, billing_period_eq, validate_plan_shape,
  validate_entitlements,
}
use dopacrm.Plans.Form.Entitlements.{number_of, ClassOption, at_least_one, on_wire, entitlement_of}
use dopacrm.Plans.Form.Rows.{
  RowFits, add_row-Fits, remove_row-Fits, edit_row-Fits, rows-validate, stored, entitlements-Fit,
}
use dopacrm.Plans.Form.{
  Plan, Form, initial_form, set_type, Edit, name_typed, currency_chosen, description_typed,
  price_typed, duration_typed, type_chosen, billing_chosen, row_edited, row_removed, row_added,
  offered, edit, Reach, opened, edited, passes, handle_submit,
}

-- The rules that a plan's header keeps, whatever stands in its inputs.
abbrev ShapeFits : PlanType → BillingPeriod → Option Number → Type 0
ShapeFits type billing duration =
    ((type ≡ PlanType.recurring)
      × (duration ≡ none)
      × ((billing == BillingPeriod.one_time) ≡ false))
    ⊎ ((type ≡ PlanType.one_time) × (billing ≡ BillingPeriod.one_time))

abbrev HeaderFits : Form → Type 0
HeaderFits f = ShapeFits f.type f.billing_period f.duration_days

set_type-HeaderFits : (t : PlanType) (f : Form) → HeaderFits (set_type t f)
unfolding set_type plan_type_eq billing_period_eq
set_type-HeaderFits PlanType.recurring f = inl (refl, refl, refl)
set_type-HeaderFits PlanType.one_time f = inr (refl, refl)

cycle-not-once :
    (b : BillingPeriod)
    → includes (BillingPeriod.monthly ∷ BillingPeriod.quarterly ∷ BillingPeriod.yearly ∷ []) b
      ≡ true
    → (b == BillingPeriod.one_time) ≡ false
unfolding billing_period_eq
cycle-not-once BillingPeriod.monthly h = refl
cycle-not-once BillingPeriod.quarterly h = refl
cycle-not-once BillingPeriod.yearly h = refl
cycle-not-once BillingPeriod.one_time h = sym h

billing_chosen-HeaderFits :
    (classes : List ClassOption) (f : Form) (b : BillingPeriod)
    → offered classes f (billing_chosen b) ≡ true
    → HeaderFits f
    → HeaderFits (record f { billing_period = b })
unfolding offered plan_type_eq
billing_chosen-HeaderFits classes f b offer (inl (t, d, _)) =
    inl (t, d, cycle-not-once b (rw t at offer))
billing_chosen-HeaderFits classes f b offer (inr (t, _)) = absurd (false≢true (rw t at offer))

edit-HeaderFits :
    (classes : List ClassOption) (f : Form) (e : Edit)
    → offered classes f e ≡ true
    → HeaderFits f
    → HeaderFits (edit e f)
unfolding edit offered
edit-HeaderFits classes f (name_typed v) offer h = h
edit-HeaderFits classes f (currency_chosen v) offer h = h
edit-HeaderFits classes f (description_typed v) offer h = h
edit-HeaderFits classes f (price_typed v) offer h = h
edit-HeaderFits classes f (duration_typed v) offer (inl (t, d, b)) = absurd (ground arith)
edit-HeaderFits classes f (duration_typed v) offer (inr h) = inr h
edit-HeaderFits classes f (type_chosen t) offer h = set_type-HeaderFits t f
edit-HeaderFits classes f (billing_chosen b) offer h = billing_chosen-HeaderFits classes f b offer h
edit-HeaderFits classes f (row_edited i e) offer h = h
edit-HeaderFits classes f (row_removed i) offer h = h
edit-HeaderFits classes f row_added offer h = h

at_least_one-on_wire : (q : Option Number) → at_least_one q ≡ true → is_some (on_wire q) ≡ true
at_least_one-on_wire none h = h
at_least_one-on_wire (some nan) h = h
at_least_one-on_wire (some (whole n)) h = refl

header-validate :
    (agorot : String → Option ℤ) (f : Form)
    → HeaderFits f
    → passes agorot f ≡ true
    → validate_plan_shape f.type f.billing_period (on_wire (handle_submit agorot f).duration_days)
      ≡ none
unfolding passes handle_submit validate_plan_shape plan_type_eq billing_period_eq
header-validate agorot f (inl (t, d, b)) pass = rw (t, b) refl
header-validate agorot f (inr (t, b)) pass =
    rw (t, b, at_least_one-on_wire f.duration_days (ground arith)) refl

validate_plan_shape-Fits :
    (t : PlanType) (b : BillingPeriod) (d : Option ℤ)
    → validate_plan_shape t b d ≡ none
    → ShapeFits t b (number_of d)
unfolding validate_plan_shape plan_type_eq
validate_plan_shape-Fits PlanType.recurring b none ok = inl (refl, refl, ground arith)
validate_plan_shape-Fits PlanType.recurring b (some n) ok = absurd (ground arith)
validate_plan_shape-Fits PlanType.one_time b none ok = absurd (ground arith)
validate_plan_shape-Fits PlanType.one_time b (some n) ok = inr (refl, ground arith)

-- The plan that the form is opened with is one that the server has taken.
abbrev pub IsTaken : (String → Bool) → Option Plan → Type 0
IsTaken in_tenant none = Unit
IsTaken in_tenant (some p) =
    (validate_plan_shape p.type p.billing_period p.duration_days ≡ none)
    × (validate_entitlements in_tenant (map (stored in_tenant) p.entitlements) ≡ none)

module _ (in_tenant : String → Bool) where
  initial_form-Fits :
      (shekels : ℤ → String) (plan : Option Plan)
      → IsTaken in_tenant plan
      → HeaderFits (initial_form shekels plan)
        × All (RowFits in_tenant) (initial_form shekels plan).entitlements
  unfolding billing_period_eq
  initial_form-Fits shekels none taken = (inl (refl, refl, refl), tt)
  initial_form-Fits shekels (some p) (shape, rows) = (
    validate_plan_shape-Fits p.type p.billing_period p.duration_days shape,
    entitlements-Fit in_tenant p.entitlements rows,
  )

  module _ (classes : List ClassOption)
      (own : All (λ (c : ClassOption). in_tenant c.id ≡ true) classes) where
    edit-RowsFit :
        (f : Form) (e : Edit)
        → offered classes f e ≡ true
        → All (RowFits in_tenant) f.entitlements
        → All (RowFits in_tenant) (edit e f).entitlements
    unfolding edit offered set_type
    edit-RowsFit f (name_typed v) offer h = h
    edit-RowsFit f (currency_chosen v) offer h = h
    edit-RowsFit f (description_typed v) offer h = h
    edit-RowsFit f (price_typed v) offer h = h
    edit-RowsFit f (duration_typed v) offer h = h
    edit-RowsFit f (type_chosen t) offer h = h
    edit-RowsFit f (billing_chosen b) offer h = h
    edit-RowsFit f (row_edited i e) offer h =
        edit_row-Fits in_tenant classes own i e f.entitlements offer h
    edit-RowsFit f (row_removed i) offer h = remove_row-Fits in_tenant i f.entitlements h
    edit-RowsFit f row_added offer h = add_row-Fits in_tenant f.entitlements h

    Reach-Fits :
        {shekels : ℤ → String} {plan : Option Plan} {f : Form}
        → IsTaken in_tenant plan
        → Reach shekels classes plan f
        → HeaderFits f × All (RowFits in_tenant) f.entitlements
    Reach-Fits {shekels} {plan} taken opened = initial_form-Fits shekels plan taken
    Reach-Fits taken (edited {f} run e offer) =
        let before = Reach-Fits taken run in
        (edit-HeaderFits classes f e offer before.0, edit-RowsFit f e offer before.1)

    -- The form is opened on no plan, or on one that the server has taken, and the classes that it lists are the
    -- tenant's: whatever is edited, and in which order, once the browser lets the form be submitted neither of
    -- the server's two checks of a plan's shape refuses what it sends.
    pub handle_submit-validate :
        {shekels : ℤ → String} {plan : Option Plan} {f : Form} (agorot : String → Option ℤ)
        → IsTaken in_tenant plan
        → Reach shekels classes plan f
        → passes agorot f ≡ true
        → (validate_plan_shape
              (handle_submit agorot f).type
              (handle_submit agorot f).billing_period
              (on_wire (handle_submit agorot f).duration_days)
            ≡ none)
          × (validate_entitlements in_tenant
                (map entitlement_of (handle_submit agorot f).entitlements)
              ≡ none)
    unfolding handle_submit passes
    handle_submit-validate {f = f} agorot taken run pass =
        let fits = Reach-Fits taken run in
        (
          header-validate agorot f fits.0 pass,
          rows-validate in_tenant f.entitlements fits.1 (ground arith),
        )
