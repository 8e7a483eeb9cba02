-- ===== src/Http/Messages/Humanize.antt =====
-- The `humanize…Error` functions of frontend/src/lib/api-errors.ts, one for each feature.
use Prim.Native.Nat.{ℕ}
use dopacrm.Base.{String, ◌&&◌, eqb, if◌then◌else◌}
use dopacrm.Http.Fetch.{Thrown}
use dopacrm.Http.Messages.{
  Message, has, to_lower_case, generic_message, by_status, not_allowed, item_not_found,
  invalid_details, check_form, not_possible, not_in_this_status, date_range, wrong_credentials,
  account_suspended, too_many_attempts, login_failed, slug_taken, slug_format, tenant_failed,
  member_not_found, phone_taken, conflict, member_failed, class_owners_only, class_not_found,
  class_name_taken, class_failed, no_active_subscription, undo_window_closed, already_undone,
  quota_used_up, class_not_covered, check_in_failed, has_subscription, same_plan,
  subscription_failed, plan_owners_only, plan_not_found, plan_name_taken, plan_failed, email_taken,
  user_failed, logo_too_large, logo_type, upload_failed, schedule_disabled, session_not_found,
  session_status, schedule_failed, leads_disabled, lead_not_found, lead_converted, lead_status,
  phone_taken_check, plan_of_other_gym, lead_failed, payment_not_found, refund_too_large,
  fully_refunded, payment_invalid, payment_failed, coach_or_class_not_found, coach_linked,
  role_taken, coach_failed,
}

-- `humanizeLoginError`
abbrev login_message : String → ℕ → Message
login_message message status =
    if eqb status 401
    then wrong_credentials
    else if eqb status 403
    then account_suspended
    else if eqb status 429
    then too_many_attempts
    else generic_message status

unfoldable pub humanize_login_error : Thrown → Message
humanize_login_error = by_status login_message login_failed

-- `humanizeTenantError`
abbrev tenant_message : String → ℕ → Message
tenant_message message status =
    if eqb status 409
    then slug_taken
    else if eqb status 422 && has message "slug_invalid_format"
    then slug_format
    else if eqb status 422
    then check_form
    else generic_message status

unfoldable pub humanize_tenant_error : Thrown → Message
humanize_tenant_error = by_status tenant_message tenant_failed

-- `humanizeMemberError`
abbrev member_message : String → ℕ → Message
member_message message status =
    if eqb status 404
    then member_not_found
    else if eqb status 409 && has (to_lower_case message) "already exists"
    then phone_taken
    else if eqb status 409 && has (to_lower_case message) "cannot "
    then not_in_this_status
    else if eqb status 409
    then conflict
    else if eqb status 422
    then check_form
    else generic_message status

unfoldable pub humanize_member_error : Thrown → Message
humanize_member_error = by_status member_message member_failed

-- `humanizeClassError`
abbrev class_message : String → ℕ → Message
class_message message status =
    if eqb status 403
    then class_owners_only
    else if eqb status 404
    then class_not_found
    else if eqb status 409
    then class_name_taken
    else if eqb status 422
    then check_form
    else generic_message status

unfoldable pub humanize_class_error : Thrown → Message
humanize_class_error = by_status class_message class_failed

-- `humanizeAttendanceError`
abbrev attendance_message : String → ℕ → Message
attendance_message message status =
    if eqb status 403
    then not_allowed
    else if eqb status 404
    then item_not_found
    else if eqb status 409 && has (to_lower_case message) "no active subscription"
    then no_active_subscription
    else if eqb status 409 && has (to_lower_case message) "undo window"
    then undo_window_closed
    else if eqb status 409 && has (to_lower_case message) "already undone"
    then already_undone
    else if eqb status 409 && has (to_lower_case message) "quota exceeded"
    then quota_used_up
    else if eqb status 409 && has (to_lower_case message) "not covered"
    then class_not_covered
    else if eqb status 409
    then not_possible
    else if eqb status 422
    then invalid_details
    else generic_message status

unfoldable pub humanize_attendance_error : Thrown → Message
humanize_attendance_error = by_status attendance_message check_in_failed

-- `humanizeSubscriptionError`
abbrev subscription_message : String → ℕ → Message
subscription_message message status =
    if eqb status 403
    then not_allowed
    else if eqb status 404
    then member_not_found
    else if eqb status 409 && has (to_lower_case message) "already"
    then has_subscription
    else if eqb status 409 && has (to_lower_case message) "same plan"
    then same_plan
    else if eqb status 409
    then not_in_this_status
    else if eqb status 422
    then check_form
    else generic_message status

unfoldable pub humanize_subscription_error : Thrown → Message
humanize_subscription_error = by_status subscription_message subscription_failed

-- `humanizePlanError`
abbrev plan_message : String → ℕ → Message
plan_message message status =
    if eqb status 403
    then plan_owners_only
    else if eqb status 404
    then plan_not_found
    else if eqb status 409
    then plan_name_taken
    else if eqb status 422
    then check_form
    else generic_message status

unfoldable pub humanize_plan_error : Thrown → Message
humanize_plan_error = by_status plan_message plan_failed

-- `humanizeUserError`
abbrev user_message : String → ℕ → Message
user_message message status =
    if eqb status 409
    then email_taken
    else if eqb status 422
    then check_form
    else generic_message status

unfoldable pub humanize_user_error : Thrown → Message
humanize_user_error = by_status user_message user_failed

-- `humanizeUploadError`
abbrev upload_message : String → ℕ → Message
upload_message message status =
    if eqb status 413
    then logo_too_large
    else if eqb status 415
    then logo_type
    else generic_message status

unfoldable pub humanize_upload_error : Thrown → Message
humanize_upload_error = by_status upload_message upload_failed

-- `humanizeScheduleError`
abbrev schedule_message : String → ℕ → Message
schedule_message message status =
    if eqb status 403 && has message "FEATURE_DISABLED"
    then schedule_disabled
    else if eqb status 404
    then session_not_found
    else if eqb status 409 && has message "SESSION_TRANSITION"
    then session_status
    else if eqb status 409
    then not_possible
    else if eqb status 422 && has message "INVALID_BULK_RANGE"
    then date_range
    else if eqb status 422
    then invalid_details
    else generic_message status

unfoldable pub humanize_schedule_error : Thrown → Message
humanize_schedule_error = by_status schedule_message schedule_failed

-- `humanizeLeadError`
abbrev lead_message : String → ℕ → Message
lead_message message status =
    if eqb status 403 && has message "FEATURE_DISABLED"
    then leads_disabled
    else if eqb status 404 && has message "PLAN_NOT_FOUND"
    then plan_not_found
    else if eqb status 404
    then lead_not_found
    else if eqb status 409 && has message "LEAD_ALREADY_CONVERTED"
    then lead_converted
    else if eqb status 409 && has message "INVALID_LEAD_STATUS_TRANSITION"
    then lead_status
    else if eqb status 409 && has message "MEMBER_ALREADY_EXISTS"
    then phone_taken_check
    else if eqb status 422 && has message "SUBSCRIPTION_PLAN_TENANT_MISMATCH"
    then plan_of_other_gym
    else if eqb status 422
    then check_form
    else generic_message status

unfoldable pub humanize_lead_error : Thrown → Message
humanize_lead_error = by_status lead_message lead_failed

-- `humanizePaymentError`
abbrev payment_message : String → ℕ → Message
payment_message message status =
    if eqb status 403
    then not_allowed
    else if eqb status 404
    then payment_not_found
    else if eqb status 409 && has message "PAYMENT_REFUND_EXCEEDS_ORIGINAL"
    then refund_too_large
    else if eqb status 409 && has message "PAYMENT_ALREADY_FULLY_REFUNDED"
    then fully_refunded
    else if eqb status 422 && has message "PAYMENT_AMOUNT_INVALID"
    then payment_invalid
    else if eqb status 422
    then check_form
    else generic_message status

unfoldable pub humanize_payment_error : Thrown → Message
humanize_payment_error = by_status payment_message payment_failed

-- `humanizeCoachError`
abbrev coach_message : String → ℕ → Message
coach_message message status =
    if eqb status 404
    then coach_or_class_not_found
    else if eqb status 409 && has message "COACH_ALREADY_LINKED"
    then coach_linked
    else if eqb status 409 && has message "CLASS_COACH_CONFLICT"
    then role_taken
    else if eqb status 409
    then not_in_this_status
    else if eqb status 422 && has message "EARNINGS_RANGE"
    then date_range
    else if eqb status 422
    then invalid_details
    else generic_message status

unfoldable pub humanize_coach_error : Thrown → Message
humanize_coach_error = by_status coach_message coach_failed

-- The functions, by the feature that calls them.
pub data Area : Type 0 where
  login tenant member class attendance subscription plan : Area
  user upload schedule lead payment coach : Area

unfoldable pub humanize : Area → Thrown → Message
unfolding humanize_login_error humanize_tenant_error humanize_member_error humanize_class_error
    humanize_attendance_error humanize_subscription_error humanize_plan_error humanize_user_error
    humanize_upload_error humanize_schedule_error humanize_lead_error humanize_payment_error
    humanize_coach_error
humanize login = humanize_login_error
humanize tenant = humanize_tenant_error
humanize member = humanize_member_error
humanize class = humanize_class_error
humanize attendance = humanize_attendance_error
humanize subscription = humanize_subscription_error
humanize plan = humanize_plan_error
humanize user = humanize_user_error
humanize upload = humanize_upload_error
humanize schedule = humanize_schedule_error
humanize lead = humanize_lead_error
humanize payment = humanize_payment_error
humanize coach = humanize_coach_error
