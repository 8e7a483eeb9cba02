-- ===== src/Schedule/Bulk.antt =====
-- BulkActionDialog.tsx of frontend/src/features/schedule: its fields, when it asks for the pay of a substitute, and
-- its request. Dates are numbers of days, `none` for a date that is not chosen.
pub mod Laws
use dopacrm.Base.{
  Bool, true, false, not, ◌&&◌, String, Option, none, some, List, ℕ, leb, filter, is_some, ◌==◌,
  string_eq, if◌then◌else◌,
}
use dopacrm.Base.Integers.{ℤ, pos, leb_ℤ}
use dopacrm.Base.Scan.{or_null}
use dopacrm.Server.Schedule.{
  ClassCoach, PayModel, per_session, Action, cancel, swap_coach, BulkRequest, ends_after, any,
}

pub record Fields : Type 0 where
  pub class : Option String
  pub from : Option ℕ
  pub to : Option ℕ
  pub action : Action
  pub coach : Option String
  pub reason : String
  pub sub_pay_model : PayModel
  -- `Math.round(subPayAmount * 100)`
  pub sub_pay_cents : ℤ

abbrev pub first_fields : Fields
first_fields = record {
  class = none;
  from = none;
  to = none;
  action = cancel;
  coach = none;
  reason = "";
  sub_pay_model = per_session;
  sub_pay_cents = pos 3000;
}

-- `useCoachesForClass(cls.id, false)`: all rows of the class
unfoldable pub links_for_class : String → List ClassCoach → List ClassCoach
unfolding string_eq
links_for_class class rows = filter (λ l. l.class_id == class) rows

unfoldable pub covers : String → ℕ → ℕ → List ClassCoach → Bool
unfolding string_eq
covers coach from to links =
    any (λ l. l.coach_id == coach && leb l.starts_on to && ends_after from l.ends_on) links

abbrev covers_range : String → Option ℕ → Option ℕ → List ClassCoach → Bool
covers_range coach (some from) (some to) links = covers coach from to links
covers_range coach _ _ links = true

-- `subHasRateForRange`, with `classCoachLinks`, which is `none` until it has come
abbrev pub sub_has_rate :
    Option String → Option String → Action → Option (List ClassCoach) → Option ℕ → Option ℕ → Bool
sub_has_rate (some class) (some coach) swap_coach (some links) from to =
    covers_range coach from to links
sub_has_rate _ _ _ _ _ _ = true

abbrev pub is_swap : Action → Bool
is_swap cancel = false
is_swap swap_coach = true

-- `needsSubPay`
abbrev pub needs_sub_pay : Fields → Option (List ClassCoach) → Bool
needs_sub_pay d links =
    is_swap d.action
    && is_some d.coach
    && not (sub_has_rate d.class d.coach d.action links d.from d.to)

-- `Math.max(0, n)`
abbrev pub max_zero : ℤ → ℤ
max_zero n = if leb_ℤ n (pos 0) then pos 0 else n

abbrev pub request_of : Fields → String → ℕ → ℕ → Bool → BulkRequest
request_of d class from to pay = record {
  class_id = class;
  from = from;
  to = to;
  action = d.action;
  new_coach_id = if is_swap d.action then d.coach else none;
  reason = or_null d.reason;
  substitute_pay_model = if pay then some d.sub_pay_model else none;
  substitute_pay_amount_cents = if pay then some (max_zero d.sub_pay_cents) else none;
}

-- `handleSubmit`, once the class and the range are there
abbrev pub submit_range : Fields → Option (List ClassCoach) → String → ℕ → ℕ → Option BulkRequest
submit_range d links class from to =
    if is_swap d.action && not (is_some d.coach)
    then none
    else some (request_of d class from to (needs_sub_pay d links))

abbrev pub submit_chosen :
    Fields → Option (List ClassCoach) → Option String → Option ℕ → Option ℕ → Option BulkRequest
submit_chosen d links (some class) (some from) (some to) = submit_range d links class from to
submit_chosen d links _ _ _ = none

-- `handleSubmit`
abbrev pub submit_bulk : Fields → Option (List ClassCoach) → Option BulkRequest
submit_bulk d links = submit_chosen d links d.class d.from d.to
