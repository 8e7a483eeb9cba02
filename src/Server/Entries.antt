-- ===== src/Server/Entries.antt =====
-- The entries of members into classes: `record_entry` and `undo` of backend/app/services/attendance_service.py, and
-- backend/app/adapters/storage/postgres/class_entry/repositories.py. The table is the list of its rows, latest
-- first; the live subscription of the member is given, and who coached the class is left out. A moment is in
-- milliseconds.
pub mod Laws
pub mod Counts
use dopacrm.Base.{
  Bool, true, false, not, ◌&&◌, ◌||◌, String, Option, none, some, List, ◌∷◌, ℕ, ◌-◌, leb, ◌==◌,
  string_eq, option_eq, filter, find, length, map, take, get_or, is_some, if◌then◌else◌,
}
use dopacrm.Auth.Types.{User, owner, staff, super_admin, role_eq}
use dopacrm.Server.Attendance.{Entitlement, QuotaCheckResult, quota_check}
use dopacrm.Server.Attendance.Window.{compute_window_start}
use dopacrm.Server.Plans.{BillingPeriod}

pub data OverrideKind : Type 0 where
  quota_exceeded not_covered : OverrideKind

-- `ClassEntry`
pub record Entry : Type 0 where
  pub id : String
  pub tenant_id : String
  pub member_id : String
  pub class_id : String
  pub entered_at : ℕ
  pub undone_at : Option ℕ
  pub undone_reason : Option String
  pub override_kind : Option OverrideKind
  pub override_reason : Option String

-- A live subscription with what its plan says.
pub record Live : Type 0 where
  pub member_id : String
  pub started_at : ℕ
  pub billing_period : BillingPeriod
  pub entitlements : List Entitlement

-- What an operation returns, or the exception that it raises.
pub data Outcome : Type 0 where
  done : List Entry → Outcome
  insufficient_permissions no_active_subscription class_not_covered : Outcome
  over_quota : ℕ → ℕ → Outcome
  entry_not_found already_undone : Outcome
  undo_window_expired : ℕ → Outcome

-- `class_id` of an entitlement, `None` for all classes
abbrev pub is_of : Option String → Entry → Bool
is_of none e = true
is_of (some class) e = e.class_id == class

-- The condition of `count_effective_entries`.
abbrev pub is_counted : String → Option String → ℕ → Entry → Bool
is_counted member class since e =
    (e.member_id == member) && not (is_some e.undone_at) && leb since e.entered_at && is_of class e

abbrev pub count_effective_entries : List Entry → String → Option String → ℕ → ℕ
count_effective_entries entries member class since =
    length (filter (is_counted member class since) entries)

-- The entries that count against an entitlement of the subscription.
unfoldable pub used_entries : Live → ℕ → List Entry → Entitlement → ℕ
unfolding string_eq
used_entries sub now entries e =
    count_effective_entries entries sub.member_id e.class_id
      (compute_window_start e.reset_period now sub.started_at sub.billing_period)

-- `_quota_check_for_sub`
abbrev pub quota_check_for_sub : Live → ℕ → List Entry → String → QuotaCheckResult
quota_check_for_sub sub now entries class =
    quota_check (used_entries sub now entries) sub.entitlements class

-- `_require_staff`
abbrev pub is_staff : User → Bool
is_staff caller = caller.role == staff || caller.role == owner || caller.role == super_admin

abbrev pub kind_of : Option String → OverrideKind
kind_of reason = if get_or reason "" == "quota_exceeded" then quota_exceeded else not_covered

-- What the caller of `record_entry` gives, and the id and the time that the database gives the row.
pub record Record : Type 0 where
  pub id : String
  pub tenant_id : String
  pub now : ℕ
  pub class_id : String
  pub override : Bool
  pub override_reason : Option String

abbrev pub create : Live → Record → Option OverrideKind → Entry
create sub r kind = record {
  id = r.id;
  tenant_id = r.tenant_id;
  member_id = sub.member_id;
  class_id = r.class_id;
  entered_at = r.now;
  undone_at = none;
  undone_reason = none;
  override_kind = kind;
  override_reason = if is_some kind then r.override_reason else none;
}

abbrev pub refused : QuotaCheckResult → Outcome
refused check =
    if get_or check.reason "" == "quota_exceeded"
    then over_quota (get_or check.used 0) (get_or check.quantity 0)
    else class_not_covered

-- `record_entry`, after the check
abbrev pub record_checked : Live → Record → List Entry → QuotaCheckResult → Outcome
record_checked sub r entries check =
    if check.allowed
    then done (create sub r none ∷ entries)
    else if r.override
    then done (create sub r (some (kind_of check.reason)) ∷ entries)
    else refused check

abbrev pub record_for : Option Live → Record → List Entry → Outcome
record_for none r entries = no_active_subscription
record_for (some sub) r entries =
    record_checked sub r entries (quota_check_for_sub sub r.now entries r.class_id)

unfoldable pub record_entry : User → Option Live → Record → List Entry → Outcome
unfolding string_eq role_eq
record_entry caller sub r entries =
    if is_staff caller && is_some caller.tenant_id
    then record_for sub r entries
    else insufficient_permissions

-- `UNDO_WINDOW`
abbrev pub undo_window : ℕ
undo_window = 86400000

-- `can_undo`
abbrev pub can_undo : ℕ → Entry → Bool
can_undo now e = if is_some e.undone_at then false else leb (now - e.entered_at) undo_window

-- The update of `undo` in the repository.
abbrev pub mark_undone : String → ℕ → Option String → Entry → Entry
mark_undone id now reason e =
    if e.id == id then record e { undone_at = some now; undone_reason = reason } else e

abbrev pub find_by_id : String → List Entry → Option Entry
find_by_id id entries = find (λ e. e.id == id) entries

-- `_get_in_tenant`: whether the caller may have the entry
abbrev pub is_in_tenant : User → Entry → Bool
is_in_tenant caller e = caller.role == super_admin || (caller.tenant_id == some e.tenant_id)

abbrev pub undo_found : User → ℕ → Option String → List Entry → Option Entry → Outcome
undo_found caller now reason entries none = entry_not_found
undo_found caller now reason entries (some e) =
    if not (is_in_tenant caller e)
    then entry_not_found
    else if is_some e.undone_at
    then already_undone
    else if not (can_undo now e)
    then undo_window_expired (now - e.entered_at)
    else done (map (mark_undone e.id now reason) entries)

unfoldable pub undo : User → String → ℕ → Option String → List Entry → Outcome
unfolding string_eq role_eq
undo caller id now reason entries =
    if is_staff caller && is_some caller.tenant_id
    then undo_found caller now reason entries (find_by_id id entries)
    else insufficient_permissions

-- `list_for_tenant`, with no filter but the limit: the rows that are not undone, newest first.
unfoldable pub list_for_tenant : String → ℕ → List Entry → List Entry
unfolding string_eq
list_for_tenant tenant limit entries =
    take limit (filter (λ e. (e.tenant_id == tenant) && not (is_some e.undone_at)) entries)
