-- ===== src/Server.antt =====
-- The part of the server that the client's error texts depend on: backend/app/domain/exceptions.py and
-- backend/app/api/error_handler.py. Of the exceptions, those of leads, payments and feature flags.
pub mod Leads
pub mod Attendance
pub mod Plans
pub mod Subscriptions
pub mod Payments
pub mod Schedule
pub mod Coaches
pub mod Tenants
pub mod Statuses
pub mod Entries
use dopacrm.Base.{String, ◌<>◌, some, List, [], ◌∷◌, ℕ, decimal, string_eq, lookup, get_or}
use dopacrm.Http.Json.{obj, str, field, end}
use dopacrm.Http.Fetch.{Response}

pub record AppError : Type 0 where
  pub message : String
  pub code : String

abbrev error : String → String → AppError
error message code = record { message = message; code = code }

abbrev pub feature_disabled : String → AppError
feature_disabled feature =
    error ("Feature '" <> feature <> "' is not enabled for this tenant") "FEATURE_DISABLED"

abbrev pub lead_not_found : String → AppError
lead_not_found id = error ("Lead not found: " <> id) "LEAD_NOT_FOUND"

abbrev pub invalid_lead_status_transition : String → String → String → AppError
invalid_lead_status_transition id current attempted =
    error ("Cannot transition lead " <> id <> " from " <> current <> " to " <> attempted)
      "INVALID_LEAD_STATUS_TRANSITION"

abbrev pub lead_already_converted : String → AppError
lead_already_converted id = error ("Lead already converted: " <> id) "LEAD_ALREADY_CONVERTED"

abbrev pub payment_not_found : String → AppError
payment_not_found id = error ("Payment not found: " <> id) "PAYMENT_NOT_FOUND"

abbrev pub payment_amount_invalid : String → AppError
payment_amount_invalid reason =
    error ("Invalid payment amount: " <> reason) "PAYMENT_AMOUNT_INVALID"

abbrev pub payment_refund_exceeds_original : String → ℕ → ℕ → AppError
payment_refund_exceeds_original id requested remaining =
    error
      ("Refund of "
        <> decimal requested
        <> " exceeds remaining "
        <> decimal remaining
        <> " on payment "
        <> id)
      "PAYMENT_REFUND_EXCEEDS_ORIGINAL"

abbrev pub payment_already_fully_refunded : String → AppError
payment_already_fully_refunded id =
    error ("Payment already fully refunded: " <> id) "PAYMENT_ALREADY_FULLY_REFUNDED"

-- `_STATUS_MAP`
abbrev pub status_map : List (String × ℕ)
status_map =
    ("INVALID_CREDENTIALS", 401)
    ∷ ("INSUFFICIENT_PERMISSIONS", 403)
    ∷ ("USER_NOT_FOUND", 404)
    ∷ ("USER_ALREADY_EXISTS", 409)
    ∷ ("TENANT_NOT_FOUND", 404)
    ∷ ("TENANT_SUSPENDED", 403)
    ∷ ("TENANT_SLUG_TAKEN", 409)
    ∷ ("MEMBER_NOT_FOUND", 404)
    ∷ ("MEMBER_ALREADY_EXISTS", 409)
    ∷ ("MEMBER_INVALID_TRANSITION", 409)
    ∷ ("CLASS_NOT_FOUND", 404)
    ∷ ("CLASS_ALREADY_EXISTS", 409)
    ∷ ("PLAN_NOT_FOUND", 404)
    ∷ ("PLAN_ALREADY_EXISTS", 409)
    ∷ ("PLAN_INVALID_SHAPE", 422)
    ∷ ("SUBSCRIPTION_NOT_FOUND", 404)
    ∷ ("SUBSCRIPTION_INVALID_TRANSITION", 409)
    ∷ ("MEMBER_HAS_ACTIVE_SUBSCRIPTION", 409)
    ∷ ("SUBSCRIPTION_SAME_PLAN", 409)
    ∷ ("SUBSCRIPTION_PLAN_TENANT_MISMATCH", 422)
    ∷ ("CLASS_ENTRY_NOT_FOUND", 404)
    ∷ ("MEMBER_NO_ACTIVE_SUBSCRIPTION", 409)
    ∷ ("ATTENDANCE_QUOTA_EXCEEDED", 409)
    ∷ ("ATTENDANCE_CLASS_NOT_COVERED", 409)
    ∷ ("ATTENDANCE_UNDO_WINDOW_EXPIRED", 409)
    ∷ ("ATTENDANCE_ALREADY_UNDONE", 409)
    ∷ ("COACH_NOT_FOUND", 404)
    ∷ ("COACH_ALREADY_LINKED", 409)
    ∷ ("COACH_STATUS_TRANSITION", 409)
    ∷ ("CLASS_COACH_LINK_NOT_FOUND", 404)
    ∷ ("CLASS_COACH_CONFLICT", 409)
    ∷ ("COACH_INVALID_PAY_MODEL", 422)
    ∷ ("COACH_INVALID_EARNINGS_RANGE", 422)
    ∷ ("FEATURE_DISABLED", 403)
    ∷ ("SCHEDULE_TEMPLATE_NOT_FOUND", 404)
    ∷ ("SCHEDULE_SESSION_NOT_FOUND", 404)
    ∷ ("SCHEDULE_SESSION_TRANSITION", 409)
    ∷ ("SCHEDULE_INVALID_BULK_RANGE", 422)
    ∷ ("LEAD_NOT_FOUND", 404)
    ∷ ("INVALID_LEAD_STATUS_TRANSITION", 409)
    ∷ ("LEAD_ALREADY_CONVERTED", 409)
    ∷ ("PAYMENT_NOT_FOUND", 404)
    ∷ ("PAYMENT_AMOUNT_INVALID", 422)
    ∷ ("PAYMENT_REFUND_EXCEEDS_ORIGINAL", 409)
    ∷ ("PAYMENT_ALREADY_FULLY_REFUNDED", 409)
    ∷ []

unfoldable pub status_code : AppError → ℕ
unfolding string_eq
status_code exc = get_or (lookup exc.code status_map) 500

-- `app_error_handler`. The reason phrase is the server library's.
unfoldable pub app_error_response : String → AppError → Response
app_error_response reason exc = record {
  status = status_code exc;
  status_text = reason;
  json = some (obj (field "error" (str exc.code) (field "detail" (str exc.message) end)));
}
