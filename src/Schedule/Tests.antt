-- ===== src/Schedule/Tests.antt =====
-- A week, and the theorems on it.
use Prim.Native.Nat.{◌/◌, ◌%◌}
use dopacrm.Base.{
  ◌≡◌, refl, true, false, none, some, List, [], ◌∷◌, ℕ, filter, arith, string_eq, ◌+◌, ◌*◌, map,
}
use dopacrm.Auth.Types.{User, owner}
use dopacrm.Server.Schedule.{
  ClassCoach, swap_coach, substitute_pay_required, has_rate, current_for_coach, bulk_error,
}
use dopacrm.Schedule.Bulk.{Fields, first_fields, links_for_class, covers, request_of, submit_bulk}
use dopacrm.Schedule.Bulk.Laws.{submit_bulk-taken}
use dopacrm.Base.Scan.{or_null}
use dopacrm.Coaches.Weekdays.{toggle}
use dopacrm.Server.Schedule.{CreateTemplate, template_error, time_order}
use dopacrm.Schedule.Template.{
  Edit, class_to, head_to, day_toggled, start_to, end_to, edit, can_edit,
}
use dopacrm.Schedule.Template.Laws.{submit_template-error}
use dopacrm.Schedule.Week.{
  Zone, SessionRow, sunday_of, opened, Reach, first, next, following, session_of, page_sessions,
  header_date,
}
use dopacrm.Schedule.Week.Laws.{may_see, starts_on, page-cell}
use dopacrm.Schedule.WeekGrid.{ClassSession, sort, cell}
use dopacrm.Schedule.WeekGrid.Laws.{starts_in, cell-sort}

abbrev yoga : ClassSession
yoga = record { id = "s1"; starts_at = record { day = 1; hour = 9; time = 900 } }

abbrev spinning : ClassSession
spinning = record { id = "s2"; starts_at = record { day = 1; hour = 9; time = 800 } }

-- At five in the morning.
abbrev run : ClassSession
run = record { id = "s3"; starts_at = record { day = 1; hour = 5; time = 500 } }

cell-sort_example :
    cell (yoga ∷ spinning ∷ run ∷ []) 1 9
    ≡ sort (filter (starts_in 1 9) (yoga ∷ spinning ∷ run ∷ []))
cell-sort_example = cell-sort (yoga ∷ spinning ∷ run ∷ []) 1 9 (omega arith) (omega arith)

abbrev manager : User
manager = record {
  id = "u1";
  email = "owner@gym";
  first_name = none;
  last_name = none;
  phone = none;
  oauth_provider = none;
  is_active = true;
  role = owner;
  tenant_id = some "t1";
  tenant_features_enabled = [];
}

-- Noa taught yoga from day 10 to day 50.
abbrev links : List ClassCoach
links =
    (record { class_id = "yoga"; coach_id = "noa"; starts_on = 10; ends_on = some 50 })
    ∷ (record { class_id = "spin"; coach_id = "noa"; starts_on = 10; ends_on = none })
    ∷ []

abbrev swap : ℕ → ℕ → Fields
swap from to = record first_fields {
  class = some "yoga";
  from = some from;
  to = some to;
  action = swap_coach;
  coach = some "noa";
}

submit_bulk-taken_example :
    bulk_error manager 60 links (request_of (swap 70 80) "yoga" 70 80 true) ≡ none
unfolding links_for_class string_eq covers dopacrm.Auth.Types.role_eq
submit_bulk-taken_example =
    submit_bulk-taken manager 60 links (swap 70 80) "yoga" 70 80
      (request_of (swap 70 80) "yoga" 70 80 true) refl refl (omega arith) refl refl refl
      (omega arith) (omega arith) (omega arith) refl

-- A range in the past, that a rate of the past covers: the dialog asks for no pay, and the server refuses.
past_rate :
    submit_bulk (swap 20 30) (some (links_for_class "yoga" links))
    ≡ some (request_of (swap 20 30) "yoga" 20 30 false)
unfolding links_for_class string_eq covers
past_rate = refl

past_rate_refused :
    bulk_error manager 60 links (request_of (swap 20 30) "yoga" 20 30 false)
    ≡ some substitute_pay_required
unfolding bulk_error has_rate current_for_coach string_eq or_null
past_rate_refused = refl

-- A class around midnight.
abbrev clicks : List Edit
clicks =
    class_to (some "yoga")
    ∷ head_to (some "noa")
    ∷ day_toggled "mon"
    ∷ day_toggled "sun"
    ∷ start_to (some 1410)
    ∷ end_to (some 30)
    ∷ []

abbrev late : CreateTemplate
late = record {
  class_id = "yoga";
  weekdays = "mon" ∷ [];
  start_time = 1410;
  end_time = 30;
  head_coach_id = "noa";
  assistant_coach_id = none;
}

submit_template-error_example : template_error manager late ≡ some time_order
unfolding edit toggle string_eq can_edit dopacrm.Auth.Types.role_eq
submit_template-error_example = submit_template-error manager clicks late refl refl refl

abbrev utc : Zone
utc = record {
  midnight = λ date. date * 86400000;
  date_of = λ time. time / 86400000;
  hour_of = λ time. time / 3600000 % 24;
  midnight-next = λ date. omega arith;
  begun = λ time. omega arith;
  not_over = λ time. omega arith;
}

-- On 2 March 2026 the user goes to the week after.
abbrev now : ℕ
now = 1772445600000

week_after :
    Reach utc (some manager) (record (opened utc now) { week_start = sunday_of utc now + 7 })
week_after = next (first now (omega arith)) (following (opened utc now))

-- Ten o'clock on 10 March.
abbrev row : SessionRow
row = record {
  id = "s1";
  tenant_id = "t1";
  starts_at = 1773136800000;
  head_coach_id = some "noa";
  assistant_coach_id = none;
  is_scheduled = true;
}

page-cell_example :
    cell
      (page_sessions utc manager none "t1"
        (row ∷ [])
        (record (opened utc now) { week_start = sunday_of utc now + 7 }))
      2
      10
    ≡ sort (
        filter
          (starts_on utc
            (header_date (record (opened utc now) { week_start = sunday_of utc now + 7 }) 2)
            10)
          (map (session_of utc) (filter (may_see manager none "t1") (row ∷ []))))
page-cell_example =
    page-cell utc manager none "t1" (row ∷ []) 2 10 week_after (omega arith) (omega arith)
      (omega arith)

-- The session is in that cell.
row_shown :
    sort (
      filter
        (starts_on utc (sunday_of utc now + 7 + 2) 10)
        (map (session_of utc) (filter (may_see manager none "t1") (row ∷ []))))
    ≡ session_of utc row ∷ []
unfolding string_eq dopacrm.Auth.Types.role_eq
row_shown = refl
