-- ===== src/Http/Messages.antt =====
-- frontend/src/lib/api-errors.ts: what the interface says of a failure. A constructor of `Message` stands
-- for one Hebrew text of the source, and texts that are equal there are one constructor here.
pub mod Humanize
pub mod Laws
pub mod Upload
use Prim.Native.Nat.{ℕ, ◌-◌}
use Prim.Native.Char.{Char, code}
use Prim.Native.String
use Prim.Native.String.{char_at}
use mathlib.Core.Option.{Option, none, some}
use text.Mathlib.Text.{find?}
use dopacrm.Base.{String, Bool, true, false, ◌&&◌, is_some, leb, eqb, if◌then◌else◌}
use dopacrm.Http.Fetch.{Thrown, api_error, status_error}

pub data Message : Type 0 where
  no_connection login_again not_allowed item_not_found item_exists : Message
  file_too_large file_type invalid_details too_many_requests system_error try_again : Message
  check_form not_possible not_in_this_status date_range : Message
  wrong_credentials account_suspended too_many_attempts login_failed : Message
  slug_taken slug_format tenant_failed : Message
  member_not_found phone_taken conflict member_failed : Message
  class_owners_only class_not_found class_name_taken class_failed : Message
  no_active_subscription undo_window_closed already_undone quota_used_up class_not_covered : Message
  check_in_failed : Message
  has_subscription same_plan subscription_failed : Message
  plan_owners_only plan_not_found plan_name_taken plan_failed : Message
  email_taken user_failed : Message
  logo_too_large logo_type upload_failed : Message
  schedule_disabled session_not_found session_status schedule_failed : Message
  leads_disabled lead_not_found lead_converted lead_status phone_taken_check plan_of_other_gym :
      Message
  lead_failed : Message
  payment_not_found refund_too_large fully_refunded payment_invalid payment_failed : Message
  coach_or_class_not_found coach_linked role_taken coach_failed : Message

-- `message.includes(part)`
unfoldable pub has : String → String → Bool
has message part = is_some (find? message part)

-- `toLowerCase`, on the letters that the tested texts hold; none of the letters outside ASCII has one of
-- those as its lower case.
to_lower : Char → Char
to_lower c =
    if leb b'A' (code c) && leb (code c) b'Z'
    then char_at "abcdefghijklmnopqrstuvwxyz" (code c - b'A')
    else c

unfoldable pub to_lower_case : String → String
unfolding to_lower
to_lower_case String.[] = String.[]
to_lower_case (String.◌∷◌ c s) = String.◌∷◌ (to_lower c) (to_lower_case s)

-- `genericMessage`
unfoldable pub generic_message : ℕ → Message
generic_message status =
    if eqb status 0
    then no_connection
    else if eqb status 401
    then login_again
    else if eqb status 403
    then not_allowed
    else if eqb status 404
    then item_not_found
    else if eqb status 409
    then item_exists
    else if eqb status 413
    then file_too_large
    else if eqb status 415
    then file_type
    else if eqb status 422
    then invalid_details
    else if eqb status 429
    then too_many_requests
    else if leb 500 status
    then system_error
    else try_again

-- The frame of every function below: what has a status goes by it, and all else gets one text.
abbrev pub by_status : (String → ℕ → Message) → Message → Thrown → Message
by_status choose fallback (api_error message status) = choose message status
by_status choose fallback (status_error message status) = choose message status
by_status choose fallback _ = fallback
