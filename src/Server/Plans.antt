-- ===== src/Server/Plans.antt =====
-- Which shapes of a plan the server takes: `_validate_plan_shape` and `_validate_entitlements` of
-- backend/app/services/membership_plan_service.py. Whether a class belongs to the tenant is asked of the
-- database, and is a parameter.
use dopacrm.Base.{
  Bool, false, not, ◌&&◌, String, Option, none, some, List, [], ◌∷◌, is_some, if◌then◌else◌, ◌==◌,
  Eq,
}
use dopacrm.Base.Integers.{ℤ, pos, leb_ℤ}
use dopacrm.Server.Attendance.{ResetPeriod, unlimited}

pub data PlanType : Type 0 where
  recurring one_time : PlanType

pub data BillingPeriod : Type 0 where
  monthly quarterly yearly one_time : BillingPeriod

PlanType-discrete : Discrete PlanType
PlanType-discrete = hlevel

BillingPeriod-discrete : Discrete BillingPeriod
BillingPeriod-discrete = hlevel

ResetPeriod-discrete : Discrete ResetPeriod
ResetPeriod-discrete = hlevel

instance unfoldable pub plan_type_eq : Eq PlanType
unfolding PlanType-discrete
plan_type_eq = record { dec = PlanType-discrete }

instance unfoldable pub billing_period_eq : Eq BillingPeriod
unfolding BillingPeriod-discrete
billing_period_eq = record { dec = BillingPeriod-discrete }

instance unfoldable pub reset_period_eq : Eq ResetPeriod
unfolding ResetPeriod-discrete
reset_period_eq = record { dec = ResetPeriod-discrete }

-- `EntitlementInput`
pub record EntitlementInput : Type 0 where
  pub class_id : Option String
  pub quantity : Option ℤ
  pub reset_period : ResetPeriod

-- The rules that a plan can break.
pub data InvalidPlanShape : Type 0 where
  recurring_with_duration recurring_billed_once one_time_without_duration one_time_billed_again :
      InvalidPlanShape
  unlimited_with_quantity metered_without_quantity quantity_not_positive foreign_class :
      InvalidPlanShape

-- `_validate_plan_shape`: the error that it raises, if it raises one.
unfoldable pub validate_plan_shape : PlanType → BillingPeriod → Option ℤ → Option InvalidPlanShape
unfolding plan_type_eq billing_period_eq
validate_plan_shape type billing_period duration_days =
    if type == PlanType.recurring
    then (if is_some duration_days
        then some recurring_with_duration
        else if billing_period == BillingPeriod.one_time
        then some recurring_billed_once
        else none)
    else if not (is_some duration_days)
    then some one_time_without_duration
    else if not (billing_period == BillingPeriod.one_time)
    then some one_time_billed_again
    else none

abbrev not_positive : Option ℤ → Bool
not_positive none = false
not_positive (some q) = leb_ℤ q (pos 0)

abbrev foreign : (String → Bool) → Option String → Bool
foreign in_tenant none = false
foreign in_tenant (some id) = not (in_tenant id)

-- One round of `_validate_entitlements`.
unfoldable pub validate_entitlement : (String → Bool) → EntitlementInput → Option InvalidPlanShape
unfolding reset_period_eq
validate_entitlement in_tenant e =
    if e.reset_period == unlimited && is_some e.quantity
    then some unlimited_with_quantity
    else if not (e.reset_period == unlimited) && not (is_some e.quantity)
    then some metered_without_quantity
    else if not_positive e.quantity
    then some quantity_not_positive
    else if foreign in_tenant e.class_id
    then some foreign_class
    else none

-- `_validate_entitlements`
unfoldable pub validate_entitlements :
    (String → Bool) → List EntitlementInput → Option InvalidPlanShape
unfolding validate_entitlement
validate_entitlements in_tenant [] = none
validate_entitlements in_tenant (e ∷ es) = elim (validate_entitlement in_tenant e) [
  | some broken ↦ some broken
  | none ↦ validate_entitlements in_tenant es
]
