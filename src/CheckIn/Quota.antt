-- ===== src/CheckIn/Quota.antt =====
-- `findQuotaForClass` and `formatRemainingAfterCheckin` of the check-in page.
pub mod Laws
use dopacrm.Base.{
  Bool, true, false, not, ◌&&◌, ◌-◌, String, Option, none, some, List, [], ◌∷◌, ℕ, ◌==◌, string_eq,
  find, is_some, if◌then◌else◌,
}
use dopacrm.Server.Attendance.{QuotaCheckResult}

-- The client's name for a row of the summary.
abbrev pub SummaryItem : Type 0
SummaryItem = QuotaCheckResult

-- `id && id === classId`
unfoldable pub id_is : String → Option String → Bool
unfolding string_eq
id_is class none = false
id_is class (some id) = not (id == "") && id == class

abbrev pub is_exact : String → SummaryItem → Bool
is_exact class s = id_is class s.class_id

-- `s.class_id === null || s.class_id === undefined`
abbrev pub is_any : SummaryItem → Bool
is_any s = not (is_some s.class_id)

unfoldable pub find_quota_for_class : List SummaryItem → String → Option SummaryItem
unfolding id_is
find_quota_for_class [] class = none
find_quota_for_class (s ∷ summary) class = elim (find (is_exact class) (s ∷ summary)) [
  | some exact ↦ some exact
  | none ↦ find is_any (s ∷ summary)
]

-- The text under the question: no limit, nothing, or so many entries left, with the period where there is one.
pub data QuotaLabel : Type 0 where
  no_limit : QuotaLabel
  empty : QuotaLabel
  left_after : ℕ → Option String → QuotaLabel

-- `q.reset_period ? … : ""`
abbrev pub period_or_none : Option String → Option String
period_or_none none = none
period_or_none (some p) = if p == "" then none else some p

abbrev pub remaining_label : SummaryItem → QuotaLabel
remaining_label q = elim q.remaining [
  | none ↦ empty
  | some remaining ↦ left_after (remaining - 1) (period_or_none q.reset_period)
]

unfoldable pub format_remaining_after_checkin : SummaryItem → QuotaLabel
unfolding string_eq
format_remaining_after_checkin q = elim q.reset_period [
  | none ↦ remaining_label q
  | some p ↦ if p == "unlimited" then no_limit else remaining_label q
]
