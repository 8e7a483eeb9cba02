-- ===== src/Plans/Form.antt =====
-- frontend/src/features/plans/PlanForm.tsx: the state of the form, its controls, and what it submits.
pub mod Entitlements
pub mod Rows
pub mod Laws
use dopacrm.Base.{
  ◌≡◌, Bool, true, false, not, ◌&&◌, String, Option, none, some, List, [], ◌∷◌, map, get_or, ◌==◌,
  ℕ, string_eq, all, includes, if◌then◌else◌,
}
use dopacrm.Base.Integers.{ℤ, pos, leb_ℤ}
use dopacrm.Base.Scan.{Number, whole, trim, or_null}
use dopacrm.Http.Json.{Json, obj, end}
use dopacrm.Server.Plans.{PlanType, BillingPeriod, plan_type_eq, billing_period_eq}
use dopacrm.Plans.Form.Entitlements.{
  Row, PlanEntitlement, row_of, number_of, ClassOption, at_least_one, row_passes, row_edit_offered,
  RowEdit, edit_row, add_row, remove_row, number_or_null,
}

-- `MembershipPlan`
pub record Plan : Type 0 where
  pub name : String
  pub description : Option String
  pub type : PlanType
  pub price_cents : ℤ
  pub currency : String
  pub billing_period : BillingPeriod
  pub duration_days : Option ℤ
  pub custom_attrs : Json
  pub entitlements : List PlanEntitlement

-- `form` and `priceShekels`
pub record Form : Type 0 where
  pub name : String
  pub description : String
  pub type : PlanType
  pub price_cents : ℤ
  pub currency : String
  pub billing_period : BillingPeriod
  pub duration_days : Option Number
  pub custom_attrs : Json
  pub entitlements : List Row
  pub price_shekels : String

abbrev pub empty_form : Form
empty_form = record {
  name = "";
  description = "";
  type = PlanType.recurring;
  price_cents = pos 0;
  currency = "ILS";
  billing_period = BillingPeriod.monthly;
  duration_days = none;
  custom_attrs = obj end;
  entitlements = [];
  price_shekels = "";
}

-- The first state, for no plan or for the plan to edit; `shekels` is `String(cents / 100)`.
abbrev pub initial_form : (ℤ → String) → Option Plan → Form
initial_form shekels none = empty_form
initial_form shekels (some p) = record {
  name = p.name;
  description = get_or p.description "";
  type = p.type;
  price_cents = p.price_cents;
  currency = p.currency;
  billing_period = p.billing_period;
  duration_days = number_of p.duration_days;
  custom_attrs = p.custom_attrs;
  entitlements = map row_of p.entitlements;
  price_shekels = shekels p.price_cents;
}

unfoldable pub set_type : PlanType → Form → Form
unfolding plan_type_eq
set_type new_type f = record f {
  type = new_type;
  billing_period =
      if new_type == PlanType.one_time then BillingPeriod.one_time else BillingPeriod.monthly;
  duration_days =
      if new_type == PlanType.one_time
      then some (get_or f.duration_days (whole (pos 30)))
      else none;
}

-- What the user does to a control, with the value that the control then has.
pub data Edit : Type 0 where
  name_typed currency_chosen description_typed price_typed duration_typed : String → Edit
  type_chosen : PlanType → Edit
  billing_chosen : BillingPeriod → Edit
  row_edited : ℕ → RowEdit → Edit
  row_removed : ℕ → Edit
  row_added : Edit

-- Whether the form shows the control, with this value to choose.
unfoldable pub offered : List ClassOption → Form → Edit → Bool
unfolding plan_type_eq billing_period_eq
offered classes f (duration_typed v) = not (f.type == PlanType.recurring)
offered classes f (billing_chosen b) =
    f.type == PlanType.recurring
    && includes (BillingPeriod.monthly ∷ BillingPeriod.quarterly ∷ BillingPeriod.yearly ∷ []) b
offered classes f (row_edited i e) = row_edit_offered classes f.entitlements i e
offered classes f _ = true

unfoldable pub edit : Edit → Form → Form
unfolding set_type
edit (name_typed v) f = record f { name = v }
edit (currency_chosen v) f = record f { currency = v }
edit (description_typed v) f = record f { description = v }
edit (price_typed v) f = record f { price_shekels = v }
edit (duration_typed v) f = record f { duration_days = number_or_null v }
edit (type_chosen t) f = set_type t f
edit (billing_chosen b) f = record f { billing_period = b }
edit (row_edited i e) f = record f { entitlements = edit_row i e f.entitlements }
edit (row_removed i) f = record f { entitlements = remove_row i f.entitlements }
edit row_added f = record f { entitlements = add_row f.entitlements }

-- The states of the form, for the plan that it was opened with and the classes of the gym.
pub data Reach (shekels : ℤ → String) (classes : List ClassOption) (plan : Option Plan)
    : Form → Type 0 where
  opened : Reach shekels classes plan (initial_form shekels plan)
  edited :
      {f : Form}
      → Reach shekels classes plan f
      → (e : Edit) → offered classes f e ≡ true
      → Reach shekels classes plan (edit e f)

abbrev price_passes : Option ℤ → Bool
price_passes none = false
price_passes (some cents) = leb_ℤ (pos 0) cents

-- `required` and `min` of the inputs that are shown, which the browser holds against a form before it is
-- submitted; `agorot` is `Math.round(Number(text) * 100)`, `none` where the text is no finite number.
unfoldable pub passes : (String → Option ℤ) → Form → Bool
unfolding string_eq plan_type_eq
passes agorot f =
    not (f.name == "")
    && (not (f.price_shekels == "") && price_passes (agorot f.price_shekels))
    && (if f.type == PlanType.recurring then true else at_least_one f.duration_days)
    && all row_passes f.entitlements

-- `PlanFormValues`, as `onSubmit` gets them
pub record Values : Type 0 where
  pub name : String
  pub description : Option String
  pub type : PlanType
  pub price_cents : ℤ
  pub currency : String
  pub billing_period : BillingPeriod
  pub duration_days : Option Number
  pub custom_attrs : Json
  pub entitlements : List Row

-- `handleSubmit`
unfoldable pub handle_submit : (String → Option ℤ) → Form → Values
unfolding string_eq plan_type_eq or_null
handle_submit agorot f = record {
  name = trim f.name;
  description = or_null (trim f.description);
  type = f.type;
  price_cents = get_or (agorot f.price_shekels) (pos 0);
  currency = if f.currency == "" then "ILS" else f.currency;
  billing_period = f.billing_period;
  duration_days = if f.type == PlanType.one_time then f.duration_days else none;
  custom_attrs = f.custom_attrs;
  entitlements = f.entitlements;
}
