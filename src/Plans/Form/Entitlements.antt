-- ===== src/Plans/Form/Entitlements.antt =====
-- `EntitlementsBuilder` and `EntitlementRow` of frontend/src/features/plans/PlanForm.tsx.
use dopacrm.Base.{
  Bool, true, false, not, ◌||◌, String, Option, none, some, List, [], ◌∷◌, ◌++◌, ℕ, zero, suc, map,
  filter, includes, get_or, ◌==◌, string_eq, option_eq, if◌then◌else◌,
}
use dopacrm.Base.Integers.{ℤ, pos, leb_ℤ}
use dopacrm.Base.Scan.{Number, nan, whole, parse_int, or_null}
use dopacrm.Server.Attendance.{ResetPeriod, weekly, unlimited}
use dopacrm.Server.Plans.{reset_period_eq, EntitlementInput}

-- An entitlement in the form: its quantity may be `NaN`.
pub record Row : Type 0 where
  pub class_id : Option String
  pub quantity : Option Number
  pub reset_period : ResetPeriod

-- An entitlement of a plan that the server sent.
pub record PlanEntitlement : Type 0 where
  pub id : String
  pub class_id : Option String
  pub quantity : Option ℤ
  pub reset_period : ResetPeriod

-- A whole number of the server, or `null`.
abbrev pub number_of : Option ℤ → Option Number
number_of none = none
number_of (some n) = some (whole n)

abbrev pub row_of : PlanEntitlement → Row
row_of e = record {
  class_id = e.class_id;
  quantity = number_of e.quantity;
  reset_period = e.reset_period;
}

pub record ClassOption : Type 0 where
  pub id : String
  pub name : String
  pub is_active : Bool

-- `updateRow`
abbrev pub update_row : ℕ → (Row → Row) → List Row → List Row
update_row i patch [] = []
update_row zero patch (r ∷ rs) = patch r ∷ rs
update_row (suc i) patch (r ∷ rs) = r ∷ update_row i patch rs

-- `addRow`
abbrev pub add_row : List Row → List Row
add_row rows =
    rows ++ record { class_id = none; quantity = some (whole (pos 1)); reset_period = weekly } ∷ []

-- `removeRow`
abbrev pub remove_row : ℕ → List Row → List Row
remove_row i [] = []
remove_row zero (r ∷ rs) = rs
remove_row (suc i) (r ∷ rs) = r ∷ remove_row i rs

-- `setReset`
unfoldable pub set_reset : ResetPeriod → Row → Row
unfolding reset_period_eq
set_reset reset row =
    if reset == unlimited
    then record row { reset_period = reset; quantity = none }
    else record row { reset_period = reset; quantity = some (get_or row.quantity (whole (pos 1))) }

-- What the user does in a row: the value of one of its controls.
pub data RowEdit : Type 0 where
  class_chosen quantity_typed : String → RowEdit
  reset_chosen : ResetPeriod → RowEdit

-- The classes that the row can be set to.
unfoldable pub class_options : List ClassOption → Row → List ClassOption
unfolding string_eq option_eq
class_options classes row = filter (λ c. c.is_active || some c.id == row.class_id) classes

-- Whether the row shows the control, with this value to choose.
unfoldable pub row_offers : List ClassOption → Row → RowEdit → Bool
unfolding string_eq reset_period_eq
row_offers classes row (class_chosen v) =
    v == "" || includes (map (λ (c : ClassOption). c.id) (class_options classes row)) v
row_offers classes row (quantity_typed v) = not (row.reset_period == unlimited)
row_offers classes row (reset_chosen reset) = true

abbrev pub row_edit_offered : List ClassOption → List Row → ℕ → RowEdit → Bool
row_edit_offered classes [] i e = false
row_edit_offered classes (r ∷ rs) zero e = row_offers classes r e
row_edit_offered classes (r ∷ rs) (suc i) e = row_edit_offered classes rs i e

-- `e.target.value ? parseInt(e.target.value, 10) : null`
unfoldable pub number_or_null : String → Option Number
unfolding string_eq
number_or_null v = if v == "" then none else some (parse_int v)

-- What an edit does to its row.
unfoldable pub patch_row : RowEdit → Row → Row
patch_row (class_chosen v) row = record row { class_id = or_null v }
patch_row (quantity_typed v) row = record row { quantity = number_or_null v }
patch_row (reset_chosen reset) row = set_reset reset row

abbrev pub edit_row : ℕ → RowEdit → List Row → List Row
edit_row i e = update_row i (patch_row e)

-- `min={1}` and `required` of a number input.
abbrev pub at_least_one : Option Number → Bool
at_least_one none = false
at_least_one (some nan) = false
at_least_one (some (whole n)) = leb_ℤ (pos 1) n

-- What the browser asks of a row: the quantity is only shown where there is a limit.
unfoldable pub row_passes : Row → Bool
unfolding reset_period_eq
row_passes row = if row.reset_period == unlimited then true else at_least_one row.quantity

-- A number in the body of a request: JSON has `null` for `NaN`.
abbrev pub on_wire : Option Number → Option ℤ
on_wire none = none
on_wire (some nan) = none
on_wire (some (whole n)) = some n

abbrev pub entitlement_of : Row → EntitlementInput
entitlement_of row = record {
  class_id = row.class_id;
  quantity = on_wire row.quantity;
  reset_period = row.reset_period;
}
