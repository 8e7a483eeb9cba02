-- ===== src/CheckIn/Tests.antt =====
-- Runs of the check-in page, and the theorems on them.
use dopacrm.Base.{
  String, ◌≡◌, refl, ◌≢◌, true, none, some, List, [], ◌∷◌, All, ℕ, get_or, string_eq, ◌<>◌, ◌+◌,
  ◌*◌, ◌≤◌, ◌<◌, arith, false, option_eq, ==_ne, ◌⊎◌,
}
use dopacrm.Base.Scan.{trim, or_null}
use dopacrm.Server.Attendance.{
  Entitlement, weekly, unlimited, summary_for_member, not_covered, quota_check, live_summary,
  live_quota_check,
}
use dopacrm.Auth.Types.{User, staff, role_eq}
use dopacrm.Server.Plans
use dopacrm.Server.Attendance.{ResetPeriod, find_matching_entitlement}
use dopacrm.Server.Attendance.Window.{compute_window_start}
use dopacrm.Server.Attendance.Window.Laws.{compute_window_start-Current}
use dopacrm.Server.Entries.{
  Entry, Live, done, used_entries, quota_check_for_sub, Record, create, record_entry, undo,
  list_for_tenant,
}
use dopacrm.Server.Entries.Laws.{undo-record_entry}
use dopacrm.CheckIn.Quota.{SummaryItem, find_quota_for_class, id_is, format_remaining_after_checkin}
use dopacrm.CheckIn.Cards.{card_label}
use dopacrm.CheckIn.Cards.Laws.{promised, card_label-record_entry}
use dopacrm.CheckIn.Feed.Laws.{Fits, list_for_tenant-Fits}
use dopacrm.CheckIn.Scanner.{is_uuid, extract_member_id_from_url}
use dopacrm.CheckIn.Scanner.Links.{NoSpace}
use dopacrm.CheckIn.Page.{Page, workspace_member, handle_page, scanned}
use dopacrm.CheckIn.Page.Laws.{scanned-link}
use dopacrm.CheckIn.Quota.Laws.{find_quota_for_class-quota_check}
use dopacrm.CheckIn.Workspace.{
  GymClass, Workspace, initial, RecordRequest, ask_override, handle, handle_confirm_override, Event,
  tapped, confirmed_override, selected, typed_reason, Reach, opened, moved, sent,
}
use dopacrm.CheckIn.Workspace.Laws.{Checked, Reach-Checked}

abbrev entitlements : List Entitlement
entitlements =
    record { class_id = none; quantity = none; reset_period = unlimited }
    ∷ record { class_id = some "yoga"; quantity = some 3; reset_period = weekly }
    ∷ []

-- Three entries count against each entitlement.
abbrev three : Entitlement → ℕ
three _ = 3

named : ◌≢◌ {A = String} "yoga" ""
unfolding string_eq
named = ==_ne {A = String} ⦃e = string_eq⦄ "yoga" "" refl

find_quota_for_class-quota_check_example :
    ((some entitlements ≡ none)
      × (find_quota_for_class (live_summary three (some entitlements)) "yoga" ≡ none)
      × (live_quota_check three (some entitlements) "yoga" ≡ none))
    ⊎ ((es : List Entitlement) × (some entitlements ≡ some es)
        × (live_quota_check three (some entitlements) "yoga"
            ≡ some (
                get_or
                  (find_quota_for_class (live_summary three (some entitlements)) "yoga")
                  (not_covered three))))
find_quota_for_class-quota_check_example =
    find_quota_for_class-quota_check three (some entitlements) "yoga" named

-- A plan without entitlements: the server answers that no class is covered.
no_entitlements : live_quota_check three (some []) "yoga" ≡ some (not_covered three)
unfolding quota_check
no_entitlements = refl

abbrev yoga : GymClass
yoga = record { id = "yoga"; name = "Yoga" }

abbrev asking : Workspace
asking = ask_override yoga "quota_exceeded" initial

abbrev request : RecordRequest
request = record {
  member_id = "m1";
  class_id = "yoga";
  override = true;
  override_reason = some "guest";
}

tap : Event
tap = tapped (some (summary_for_member three entitlements)) yoga

tapped_run : Reach "m1" (("m1", tap) ∷ []) asking []
unfolding tap handle find_quota_for_class id_is string_eq
tapped_run = moved (opened "m1") (tapped (some (summary_for_member three entitlements)) yoga) refl

override_run :
    Reach "m1" (("m1", confirmed_override " guest ") ∷ ("m1", tap) ∷ []) asking (request ∷ [])
unfolding tap handle handle_confirm_override typed_reason trim or_null string_eq
override_run = sent tapped_run (confirmed_override " guest ") refl

Reach-Checked_example :
    All (Checked (("m1", confirmed_override " guest ") ∷ ("m1", tap) ∷ [])) (request ∷ [])
Reach-Checked_example = Reach-Checked override_run

-- The tap was made under the summary of one member, and what is sent is of the member who was scanned after it.
scanned_between :
    Reach "m2"
      (("m2", confirmed_override " guest ") ∷ ("m1", selected "m2") ∷ ("m1", tap) ∷ [])
      asking
      (record request { member_id = "m2" } ∷ [])
unfolding tap handle handle_confirm_override typed_reason trim or_null string_eq
scanned_between = sent (moved tapped_run (selected "m2") refl) (confirmed_override " guest ") refl

abbrev clerk : User
clerk = record {
  id = "u1";
  email = "dana@gym.com";
  first_name = none;
  last_name = none;
  phone = none;
  oauth_provider = none;
  is_active = true;
  role = staff;
  tenant_id = some "gym";
  tenant_features_enabled = [];
}

abbrev live : Live
live = record {
  member_id = "m1";
  started_at = 20000;
  billing_period = Plans.monthly;
  entitlements = entitlements;
}

-- 2 March 2026, 10:00
abbrev ten : ℕ
ten = 1772445600000

abbrev check_in : Record
check_in = record {
  id = "e1";
  tenant_id = "gym";
  now = ten;
  class_id = "yoga";
  override = false;
  override_reason = none;
}

compute_window_start-Current_example :
    (compute_window_start weekly ten 20000 Plans.monthly ≤ ten)
    × (ten < compute_window_start weekly ten 20000 Plans.monthly + 7 * 86400000)
compute_window_start-Current_example =
    compute_window_start-Current weekly ten 20000 Plans.monthly (omega arith)

-- The week of that Monday begins on 1 March, and so does the month.
week_case : compute_window_start weekly ten 20000 Plans.monthly ≡ 1772323200000
unfolding compute_window_start
week_case = refl

month_case : compute_window_start ResetPeriod.monthly ten 20000 Plans.monthly ≡ 1772323200000
unfolding compute_window_start
month_case = refl

abbrev row : SummaryItem
row = record {
  allowed = true;
  used = some 0;
  quantity = some 3;
  remaining = some 3;
  reset_period = some "weekly";
  reason = none;
  class_id = some "yoga";
}

row_found :
    find_quota_for_class (summary_for_member (used_entries live ten []) entitlements) "yoga"
    ≡ some row
unfolding find_quota_for_class id_is string_eq used_entries
row_found = refl

card_label-record_entry_example :
    (after : List Entry) × (record_entry clerk (some live) check_in [] ≡ done after)
    × (card_label (
          find_quota_for_class
            (summary_for_member (used_entries live ten after) entitlements)
            "yoga")
        ≡ promised (format_remaining_after_checkin row))
unfolding role_eq
card_label-record_entry_example =
    card_label-record_entry clerk live check_in [] row (omega arith) named refl row_found refl

abbrev yoga_entry : Entry
yoga_entry = create live check_in none

taken : record_entry clerk (some live) check_in [] ≡ done (yoga_entry ∷ [])
unfolding record_entry find_matching_entitlement used_entries quota_check string_eq role_eq
    option_eq
taken = refl

undo-record_entry_example :
    (final : List Entry) × (undo clerk "e1" (ten + 3600000) none (yoga_entry ∷ []) ≡ done final)
    × (quota_check_for_sub live (ten + 3600000) final "yoga"
        ≡ quota_check_for_sub live (ten + 3600000) [] "yoga")
unfolding role_eq string_eq
undo-record_entry_example =
    undo-record_entry clerk clerk (some live) check_in [] (yoga_entry ∷ []) (ten + 3600000) none
      live (ten + 3600000) "yoga" taken refl refl refl (omega arith)

list_for_tenant-Fits_example :
    All
      (Fits (yoga ∷ []) clerk (ten + 3600000) none (yoga_entry ∷ []))
      (list_for_tenant "gym" 10 (yoga_entry ∷ []))
unfolding role_eq string_eq
list_for_tenant-Fits_example =
    list_for_tenant-Fits (yoga ∷ []) clerk "gym" 10 (ten + 3600000) none (yoga_entry ∷ []) refl refl
      (refl, tt)

-- With a limit on all classes beside the one of the class, a check-in counts against both.
both_count :
    used_entries live ten
      (yoga_entry ∷ [])
      (record { class_id = none; quantity = some 8; reset_period = weekly })
    ≡ 1
unfolding used_entries string_eq compute_window_start
both_count = refl

abbrev scanner_open : Page
scanner_open = record { selected_member_id = none; scan_open = true }

abbrev member : String
member = "0a1b2c3d-0000-4444-8888-0123456789ab"

scanned-link_example :
    (workspace_member (handle_page (scanned member) scanner_open) ≡ some member)
    × (workspace_member
          (handle_page (scanned ("dopacrm://checkin?member" <> String.◌∷◌ "=" member)) scanner_open)
        ≡ some member)
unfolding is_uuid extract_member_id_from_url NoSpace
scanned-link_example =
    scanned-link "dopacrm://checkin?member" "=" member scanner_open refl refl (refl, refl)
      (ground arith) refl refl
