-- ===== src/Server/Attendance.antt =====
-- How the server answers for the quota of a member: backend/app/services/attendance_service.py. The number of
-- entries that count against an entitlement comes from the database, and is a parameter.
pub mod Window
use dopacrm.Base.{
  Bool, true, false, not, ◌-◌, String, Option, none, some, List, [], ℕ, ltb, ◌==◌, string_eq,
  option_eq, find, map, get_or, is_some, if◌then◌else◌,
}

-- `ResetPeriod`
pub data ResetPeriod : Type 0 where
  weekly monthly billing_period never unlimited : ResetPeriod

-- `.value`
abbrev pub period_text : ResetPeriod → String
period_text weekly = "weekly"
period_text monthly = "monthly"
period_text billing_period = "billing_period"
period_text never = "never"
period_text unlimited = "unlimited"

pub record Entitlement : Type 0 where
  pub class_id : Option String
  pub quantity : Option ℕ
  pub reset_period : ResetPeriod

pub record QuotaCheckResult : Type 0 where
  pub allowed : Bool
  pub used : Option ℕ
  pub quantity : Option ℕ
  pub remaining : Option ℕ
  pub reset_period : Option String
  pub reason : Option String
  pub class_id : Option String

abbrev pub is_for : String → Entitlement → Bool
is_for class e = e.class_id == some class

abbrev pub is_wildcard : Entitlement → Bool
is_wildcard e = not (is_some e.class_id)

unfoldable pub find_matching_entitlement : List Entitlement → String → Option Entitlement
unfolding string_eq
find_matching_entitlement es class = elim (find (is_for class) es) [
  | some e ↦ some e
  | none ↦ find is_wildcard es
]

module _ (count_effective_entries : Entitlement → ℕ) where
  -- What the server says where entries are counted.
  abbrev pub counted : Entitlement → QuotaCheckResult
  counted e =
      let count = count_effective_entries e in
      let quantity = get_or e.quantity 0 in
      let allowed = ltb count quantity in
      record {
        allowed = allowed;
        used = some count;
        quantity = some quantity;
        remaining = some (quantity - count);
        reset_period = some (period_text e.reset_period);
        reason = if allowed then none else some "quota_exceeded";
        class_id = e.class_id;
      }

  -- `_quota_for_entitlement`, by the period of the entitlement
  abbrev pub quota_in : ResetPeriod → Entitlement → QuotaCheckResult
  quota_in unlimited e = record {
    allowed = true;
    used = none;
    quantity = none;
    remaining = none;
    reset_period = some "unlimited";
    reason = none;
    class_id = e.class_id;
  }
  quota_in _ e = counted e

  abbrev pub quota_for_entitlement : Entitlement → QuotaCheckResult
  quota_for_entitlement e = quota_in e.reset_period e

  -- `summary_for_member`, for the entitlements of the live subscription
  abbrev pub summary_for_member : List Entitlement → List QuotaCheckResult
  summary_for_member es = map quota_for_entitlement es

  abbrev pub not_covered : QuotaCheckResult
  not_covered = record {
    allowed = false;
    used = none;
    quantity = none;
    remaining = none;
    reset_period = none;
    reason = some "not_covered";
    class_id = none;
  }

  -- The quota of a class, from the entitlements of the live subscription.
  unfoldable pub quota_check : List Entitlement → String → QuotaCheckResult
  unfolding find_matching_entitlement
  quota_check es class = elim (find_matching_entitlement es class) [
    | none ↦ not_covered
    | some e ↦ quota_for_entitlement e
  ]

  -- `quota_check`, for the entitlements of the live subscription, if there is one: `none` for the answer 409.
  abbrev pub live_quota_check : Option (List Entitlement) → String → Option QuotaCheckResult
  live_quota_check none class = none
  live_quota_check (some es) class = some (quota_check es class)

  -- `summary_for_member`, for the entitlements of the live subscription, if there is one.
  abbrev pub live_summary : Option (List Entitlement) → List QuotaCheckResult
  live_summary none = []
  live_summary (some es) = summary_for_member es
