-- ===== src/Coaches/Assign.antt =====
-- ClassCoachesSection.tsx of frontend/src/features/coaches: the form that attaches a coach to a class. `primary` is
-- the Hebrew word that the role starts with and falls back to.
pub mod Laws
use dopacrm.Base.{
  Bool, true, false, ◌&&◌, ◌||◌, not, String, Option, none, some, List, [], ◌∷◌, ◌==◌, string_eq,
  includes, if◌then◌else◌,
}
use dopacrm.Base.Integers.{ℤ, pos, leb_ℤ}
use dopacrm.Base.Scan.{trim}
use dopacrm.Auth.Types.{User, owner, super_admin, role_eq}
use dopacrm.Server.Schedule.{PayModel, per_attendance}
use dopacrm.Server.Coaches.{AssignCoach}
use dopacrm.Coaches.Weekdays.{weekdays_codes, toggle}
use dopacrm.Schedule.Bulk.{max_zero}

pub record Form : Type 0 where
  pub coach : Option String
  pub role : String
  pub is_primary : Bool
  pub pay_model : PayModel
  -- `Math.round(amount * 100)`
  pub cents : ℤ
  pub weekdays : List String

-- The controls of the form.
pub data Edit : Type 0 where
  coach_to : Option String → Edit
  role_to : String → Edit
  primary_to : Bool → Edit
  pay_to : PayModel → Edit
  cents_to : ℤ → Edit
  day_toggled : String → Edit

-- The buttons of WeekdaysPicker are those of the seven days.
abbrev pub offered : Edit → Bool
unfolding string_eq
offered (day_toggled code) = includes weekdays_codes code
offered _ = true

unfoldable pub edit : Edit → Form → Form
unfolding toggle
edit (coach_to c) f = record f { coach = c }
edit (role_to v) f = record f { role = v }
edit (primary_to b) f = record f { is_primary = b }
edit (pay_to m) f = record f { pay_model = m }
edit (cents_to n) f = record f { cents = n }
edit (day_toggled code) f = record f { weekdays = toggle false code f.weekdays }

abbrev pub edits : List Edit → Form → Form
edits [] f = f
edits (e ∷ es) f = edits es (edit e f)

-- `canEdit`
unfoldable pub can_edit : Option User → Bool
unfolding role_eq
can_edit none = false
can_edit (some user) = user.role == owner || user.role == super_admin

module _ (primary : String) where
  abbrev pub first_form : Form
  first_form = record {
    coach = none;
    role = primary;
    is_primary = true;
    pay_model = per_attendance;
    cents = pos 3000;
    weekdays = [];
  }

  -- `role.trim() || …`
  unfoldable pub role_of : String → String
  unfolding trim string_eq
  role_of role = if trim role == "" then primary else trim role

  abbrev pub request_of : Form → String → AssignCoach
  request_of f coach = record {
    coach_id = coach;
    role = role_of f.role;
    is_primary = f.is_primary;
    pay_model = f.pay_model;
    pay_amount_cents = max_zero f.cents;
    weekdays = f.weekdays;
  }

  abbrev pub submit_coach : Form → Option String → Option AssignCoach
  submit_coach f none = none
  submit_coach f (some coach) = some (request_of f coach)

  -- `handleSubmit`
  abbrev pub submit_assign : Form → Option AssignCoach
  submit_assign f = submit_coach f f.coach
