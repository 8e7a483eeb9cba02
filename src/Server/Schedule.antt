-- ===== src/Server/Schedule.antt =====
-- When the server performs a bulk action and when it makes a template: the checks of `bulk_action` and
-- `create_template` of backend/app/services/schedule_service.py, the schema of the request, and the check of the table.
-- Dates are numbers of days. That the gym has the schedule, and that the class and the coach belong to the tenant,
-- is asked of the database and left out, and so is the row that a substitute without a rate gets.
use dopacrm.Base.{
  eqb, length, Bool, true, false, not, ◌&&◌, ◌||◌, ◌+◌, String, Option, none, some, List, [], ◌∷◌,
  ℕ, leb, ltb, filter, is_some, ◌==◌, string_eq, if◌then◌else◌,
}
use dopacrm.Base.Integers.{ℤ, pos, leb_ℤ}
use dopacrm.Base.Scan.{fits}
use dopacrm.Coaches.Weekdays.{valid_weekdays}
use dopacrm.Auth.Types.{owner, super_admin, role_eq, User}

-- A row of `class_coaches`.
pub record ClassCoach : Type 0 where
  pub class_id : String
  pub coach_id : String
  pub starts_on : ℕ
  pub ends_on : Option ℕ

pub data PayModel : Type 0 where
  fixed per_session per_attendance : PayModel

pub data Action : Type 0 where
  cancel swap_coach : Action

-- `BulkActionRequest`
pub record BulkRequest : Type 0 where
  pub class_id : String
  pub from : ℕ
  pub to : ℕ
  pub action : Action
  pub new_coach_id : Option String
  pub reason : Option String
  pub substitute_pay_model : Option PayModel
  pub substitute_pay_amount_cents : Option ℤ

-- `ends_on is None or ends_on >= day`
abbrev pub ends_after : ℕ → Option ℕ → Bool
ends_after day none = true
ends_after day (some last) = leb day last

-- `any(...)`
abbrev pub any : (ClassCoach → Bool) → List ClassCoach → Bool
any p [] = false
any p (l ∷ ls) = p l || any p ls

-- `list_for_coach`, with `only_current`
unfoldable pub current_for_coach : ℕ → String → List ClassCoach → List ClassCoach
unfolding string_eq
current_for_coach today coach rows =
    filter (λ l. l.coach_id == coach && ends_after today l.ends_on) rows

-- `has_rate`
unfoldable pub has_rate : ℕ → List ClassCoach → BulkRequest → String → Bool
unfolding string_eq current_for_coach
has_rate today rows r coach =
    any (λ l. l.class_id == r.class_id && leb l.starts_on r.to && ends_after r.from l.ends_on)
      (current_for_coach today coach rows)

pub data BulkError : Type 0 where
  unprocessable_bulk no_tenant not_owner range_reversed range_too_long : BulkError
  coach_missing substitute_pay_required : BulkError

abbrev pub pay_given : BulkRequest → Bool
pay_given r = is_some r.substitute_pay_model && is_some r.substitute_pay_amount_cents

abbrev pub swap_error : ℕ → List ClassCoach → BulkRequest → Option String → Option BulkError
swap_error today rows r none = some coach_missing
swap_error today rows r (some coach) =
    if not (has_rate today rows r coach) && not (pay_given r)
    then some substitute_pay_required
    else none

abbrev pub action_error : ℕ → List ClassCoach → BulkRequest → Action → Option BulkError
action_error today rows r cancel = none
action_error today rows r swap_coach = swap_error today rows r r.new_coach_id

-- The limits of `BulkActionRequest`.
abbrev pub not_negative : Option ℤ → Bool
not_negative none = true
not_negative (some cents) = leb_ℤ (pos 0) cents

abbrev pub valid_bulk : BulkRequest → Bool
valid_bulk r = fits 500 r.reason && not_negative r.substitute_pay_amount_cents

-- The error that the schema, or `bulk_action`, raises, if there is one.
unfoldable pub bulk_error : User → ℕ → List ClassCoach → BulkRequest → Option BulkError
unfolding role_eq has_rate
bulk_error caller today rows r =
    if not (valid_bulk r)
    then some unprocessable_bulk
    else if not (is_some caller.tenant_id)
    then some no_tenant
    else if not (caller.role == owner || caller.role == super_admin)
    then some not_owner
    else if ltb r.to r.from
    then some range_reversed
    else if ltb (r.from + 366) r.to
    then some range_too_long
    else action_error today rows r r.action

-- `CreateTemplateRequest`, without the dates, which the client does not send
pub record CreateTemplate : Type 0 where
  pub class_id : String
  pub weekdays : List String
  pub start_time : ℕ
  pub end_time : ℕ
  pub head_coach_id : String
  pub assistant_coach_id : Option String

-- The schema refuses, the service does, or the table: `ck_sched_templates_time_order`.
pub data TemplateError : Type 0 where
  unprocessable forbidden time_order : TemplateError

-- The error of `create_template`, if it has one.
unfoldable pub template_error : User → CreateTemplate → Option TemplateError
unfolding role_eq valid_weekdays
template_error caller r =
    if eqb (length r.weekdays) 0 || not (valid_weekdays r.weekdays)
    then some unprocessable
    else if not (caller.role == owner || caller.role == super_admin)
    then some forbidden
    else if not (ltb r.start_time r.end_time)
    then some time_order
    else none
