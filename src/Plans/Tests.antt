-- ===== src/Plans/Tests.antt =====
-- A run of the plan form, and the theorem on it.
use dopacrm.Base.{
  ◌≡◌, refl, Bool, true, String, Option, none, some, List, [], ◌∷◌, map, ◌==◌, string_eq, option_eq,
}
use dopacrm.Base.Integers.{ℤ, pos}
use dopacrm.Base.Scan.{whole, or_null}
use dopacrm.Http.Json.{obj, end}
use dopacrm.Server.Attendance.{monthly}
use dopacrm.Server.Plans.{
  PlanType, BillingPeriod, plan_type_eq, reset_period_eq, validate_plan_shape,
  validate_entitlements,
}
use dopacrm.Plans.Form.Entitlements.{
  ClassOption, class_chosen, reset_chosen, row_offers, class_options, patch_row, set_reset,
  entitlement_of, row_passes,
}
use dopacrm.Plans.Form.{
  Form, name_typed, price_typed, type_chosen, row_edited, row_added, offered, edit, set_type, Reach,
  opened, edited, passes, handle_submit,
}
use dopacrm.Plans.Form.Laws.{handle_submit-validate}

abbrev in_tenant : String → Bool
unfolding string_eq
in_tenant id = id == "yoga"

abbrev classes : List ClassOption
classes = record { id = "yoga"; name = "Yoga"; is_active = true } ∷ []

abbrev shekels : ℤ → String
shekels _ = "450"

-- The price that is typed below.
abbrev agorot : String → Option ℤ
agorot _ = some (pos 45000)

-- The form after the run below.
abbrev ten_entries : Form
ten_entries = record {
  name = "Ten entries";
  description = "";
  type = PlanType.one_time;
  price_cents = pos 0;
  currency = "ILS";
  billing_period = BillingPeriod.one_time;
  duration_days = some (whole (pos 30));
  custom_attrs = obj end;
  entitlements =
      record { class_id = some "yoga"; quantity = some (whole (pos 1)); reset_period = monthly }
      ∷ [];
  price_shekels = "450";
}

filled : Reach shekels classes none ten_entries
unfolding offered edit row_offers class_options patch_row set_reset set_type or_null string_eq
    option_eq plan_type_eq reset_period_eq
filled =
    edited
      (edited
        (edited
          (edited (edited (edited opened (name_typed "Ten entries") refl) (price_typed "450") refl)
            (type_chosen PlanType.one_time) refl)
          row_added refl)
        (row_edited 0 (class_chosen "yoga")) refl)
      (row_edited 0 (reset_chosen monthly)) refl

handle_submit-validate_example :
    (validate_plan_shape PlanType.one_time BillingPeriod.one_time (some (pos 30)) ≡ none)
    × (validate_entitlements in_tenant (map entitlement_of ten_entries.entitlements) ≡ none)
unfolding handle_submit passes row_passes string_eq plan_type_eq reset_period_eq
handle_submit-validate_example =
    handle_submit-validate in_tenant classes (refl, tt) agorot tt filled refl
