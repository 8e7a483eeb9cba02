-- ===== src/Schedule/Week.antt =====
-- The week that frontend/src/features/schedule/SchedulePage.tsx shows: its state, the range of its query, what the server
-- lists for it (backend/app/services/schedule_service.py and the repository of sessions), and the grid. A date is the
-- number of days since 1 January 1970, a Thursday, and a moment the milliseconds of `getTime()`.
pub mod Laws
use Prim.Native.Nat.{◌%◌}
use dopacrm.Base.{
  Bool, true, false, not, ◌&&◌, ◌||◌, String, Option, none, some, List, [], ◌∷◌, ℕ, suc, ◌+◌, ◌-◌,
  ◌≤◌, ◌<◌, leb, ltb, filter, map, ◌==◌, string_eq, option_eq, if◌then◌else◌, ◌≡◌,
}
use dopacrm.Auth.Types.{User, owner, super_admin, coach, role_eq}
use dopacrm.Schedule.Template.{can_edit}
use dopacrm.Schedule.WeekGrid.{ClassSession}

-- The browser's time zone: when a date begins, and the date and the hour of a moment, as `Date` has them.
pub record Zone : Type 0 where
  pub midnight : ℕ → ℕ
  pub date_of : ℕ → ℕ
  pub hour_of : ℕ → ℕ
  pub midnight-next : (date : ℕ) → midnight date < midnight (suc date)
  pub begun : (time : ℕ) → midnight (date_of time) ≤ time
  pub not_over : (time : ℕ) → time < midnight (suc (date_of time))

-- `getDay()`
abbrev pub day_of : ℕ → ℕ
day_of date = (date + 4) % 7

-- A row of `class_sessions`, with the fields that the list depends on.
pub record SessionRow : Type 0 where
  pub id : String
  pub tenant_id : String
  pub starts_at : ℕ
  pub head_coach_id : Option String
  pub assistant_coach_id : Option String
  pub is_scheduled : Bool

abbrev pub has_coach : String → SessionRow → Bool
has_coach id s = s.head_coach_id == some id || s.assistant_coach_id == some id

-- `list_for_range`, for one coach or for all; the rows are those of the table, by their starts.
abbrev pub is_listed : String → ℕ → ℕ → Option String → Bool → SessionRow → Bool
is_listed tenant from to none cancelled s =
    s.tenant_id == tenant
    && leb from s.starts_at
    && ltb s.starts_at to
    && (cancelled || s.is_scheduled)
is_listed tenant from to (some coach_id) cancelled s =
    s.tenant_id == tenant
    && leb from s.starts_at
    && ltb s.starts_at to
    && has_coach coach_id s
    && (cancelled || s.is_scheduled)

abbrev pub list_for_own : String → ℕ → ℕ → Option String → Bool → List SessionRow → List SessionRow
list_for_own tenant from to none cancelled rows = []
list_for_own tenant from to (some id) cancelled rows =
    filter (is_listed tenant from to (some id) cancelled) rows

-- `list_sessions`: a coach gets the sessions of the coach that the user is, if there is one.
unfoldable pub list_sessions :
    User → Option String → String → ℕ → ℕ → Bool → List SessionRow → List SessionRow
unfolding string_eq role_eq option_eq
list_sessions caller own tenant from to cancelled rows =
    if caller.role == coach
    then list_for_own tenant from to own cancelled rows
    else filter (is_listed tenant from to none cancelled) rows

pub record SchedulePage : Type 0 where
  pub week_start : ℕ
  pub show_template_form : Bool
  pub show_ad_hoc : Bool
  pub show_bulk : Bool
  pub active_session : Option ClassSession

pub data Dialog : Type 0 where
  template_form ad_hoc bulk : Dialog

unfoldable pub show_dialog : Dialog → Bool → SchedulePage → SchedulePage
show_dialog template_form b p = record p { show_template_form = b }
show_dialog ad_hoc b p = record p { show_ad_hoc = b }
show_dialog bulk b p = record p { show_bulk = b }

-- The header of a column: `addDays(weekStart, i)`.
abbrev pub header_date : SchedulePage → ℕ → ℕ
header_date p i = p.week_start + i

module _ (zone : Zone) where
  -- `sundayOfThisWeek`
  abbrev pub sunday_of : ℕ → ℕ
  sunday_of now = let today = zone.date_of now in today - day_of today

  abbrev pub opened : ℕ → SchedulePage
  opened now = record {
    week_start = sunday_of now;
    show_template_form = false;
    show_ad_hoc = false;
    show_bulk = false;
    active_session = none;
  }

  -- What the user may do. The dates stay after 1970.
  pub data Step (user : Option User) : SchedulePage → SchedulePage → Type 0 where
    previous :
        (p : SchedulePage)
        → 7 ≤ p.week_start
        → Step user p (record p { week_start = p.week_start - 7 })
    this_week :
        (p : SchedulePage) (now : ℕ)
        → 4 ≤ zone.date_of now
        → Step user p (record p { week_start = sunday_of now })
    following : (p : SchedulePage) → Step user p (record p { week_start = p.week_start + 7 })
    opens :
        (p : SchedulePage) (d : Dialog) → can_edit user ≡ true → Step user p (show_dialog d true p)
    closes : (p : SchedulePage) (d : Dialog) → Step user p (show_dialog d false p)
    activates :
        (p : SchedulePage) (s : Option ClassSession) → Step user p (record p { active_session = s })

  pub data Reach (user : Option User) : SchedulePage → Type 0 where
    first : (now : ℕ) → 4 ≤ zone.date_of now → Reach user (opened now)
    next : {p q : SchedulePage} → Reach user p → Step user p q → Reach user q

  -- A session as the grid reads it.
  abbrev pub session_of : SessionRow → ClassSession
  session_of s = record {
    id = s.id;
    starts_at = record {
      day = day_of (zone.date_of s.starts_at);
      hour = zone.hour_of s.starts_at;
      time = s.starts_at;
    };
  }

  -- The sessions of the page: `useSessions({ from, to, include_cancelled: true })`.
  unfoldable pub page_sessions :
      User → Option String → String → List SessionRow → SchedulePage → List ClassSession
  unfolding list_sessions
  page_sessions caller own tenant rows p = map session_of (
      list_sessions caller own tenant (zone.midnight p.week_start)
        (zone.midnight (p.week_start + 7)) true rows)
