-- ===== src/Schedule/Template.antt =====
-- TemplateForm.tsx of frontend/src/features/schedule: the form for a class that recurs every week. A time of day is
-- a number of minutes, `none` for a field that is cleared, which the browser does not let through.
pub mod Laws
use dopacrm.Base.{
  Bool, true, false, not, ◌&&◌, ◌||◌, String, Option, none, some, List, [], ◌∷◌, ℕ, includes,
  length, eqb, ◌==◌, string_eq, if◌then◌else◌,
}
use dopacrm.Auth.Types.{User, owner, super_admin, role_eq}
use dopacrm.Coaches.Weekdays.{weekdays_codes, toggle}
use dopacrm.Server.Schedule.{CreateTemplate}

pub record Form : Type 0 where
  pub class : Option String
  pub head_coach : Option String
  pub assistant_coach : Option String
  pub weekdays : List String
  pub start_time : Option ℕ
  pub end_time : Option ℕ

abbrev pub first_form : Form
first_form = record {
  class = none;
  head_coach = none;
  assistant_coach = none;
  weekdays = "sun" ∷ [];
  start_time = some 1080;
  end_time = some 1140;
}

-- The controls of the form.
pub data Edit : Type 0 where
  class_to head_to assistant_to : Option String → Edit
  day_toggled : String → Edit
  start_to end_to : Option ℕ → Edit

abbrev pub offered : Edit → Bool
unfolding string_eq
offered (day_toggled code) = includes weekdays_codes code
offered _ = true

unfoldable pub edit : Edit → Form → Form
unfolding toggle
edit (class_to c) f = record f { class = c }
edit (head_to c) f = record f { head_coach = c }
edit (assistant_to c) f = record f { assistant_coach = c }
edit (day_toggled code) f = record f { weekdays = toggle false code f.weekdays }
edit (start_to t) f = record f { start_time = t }
edit (end_to t) f = record f { end_time = t }

abbrev pub edits : List Edit → Form → Form
edits [] f = f
edits (e ∷ es) f = edits es (edit e f)

abbrev pub request_of : Form → String → String → ℕ → ℕ → CreateTemplate
request_of f class head start end = record {
  class_id = class;
  weekdays = f.weekdays;
  start_time = start;
  end_time = end;
  head_coach_id = head;
  assistant_coach_id = f.assistant_coach;
}

-- `handleSubmit`, of a form that the browser lets through
abbrev pub submit_fields :
    Form → Option String → Option String → Option ℕ → Option ℕ → Option CreateTemplate
submit_fields f (some class) (some head) (some start) (some end) =
    if eqb (length f.weekdays) 0 then none else some (request_of f class head start end)
submit_fields f _ _ _ _ = none

abbrev pub submit_template : Form → Option CreateTemplate
submit_template f = submit_fields f f.class f.head_coach f.start_time f.end_time

-- `canEdit` of SchedulePage.tsx, which shows the form
unfoldable pub can_edit : Option User → Bool
unfolding role_eq
can_edit none = false
can_edit (some user) = user.role == owner || user.role == super_admin
