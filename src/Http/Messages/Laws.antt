-- ===== src/Http/Messages/Laws.antt =====
-- What the texts of frontend/src/lib/api-errors.ts can and cannot tell apart.
use dopacrm.Base.{
  ◌≡◌, refl, ◌≢◌, false, String, eqb, if◌then◌else◌, some, List, [], ◌∷◌, ℕ, ◌≤◌, arith, All,
  string_eq,
}
use dopacrm.Http.Json.{Json, null, obj, property}
use dopacrm.Http.Fetch.{Response, Thrown, api_error, err, is_ok}
use dopacrm.Http.Client.{receive}
use dopacrm.Http.Messages.{
  Message, no_connection, login_again, system_error, lead_not_found, check_form, payment_not_found,
  has, generic_message,
}
use dopacrm.Http.Messages.Humanize.{Area, login, lead, payment, humanize}
use dopacrm.Server.{AppError, status_code, app_error_response}

-- A lost connection reads the same in every feature, and so does every failure of the server.
pub humanize_outage :
    (area : Area) (message : String) (status : ℕ)
    → (status ≡ 0 → humanize area (api_error message status) ≡ no_connection)
      × (500 ≤ status → humanize area (api_error message status) ≡ system_error)
unfolding humanize generic_message
humanize_outage login message status = ground arith
humanize_outage _ message status = ground arith

-- An expired session reads the same in every feature but the login form, where it is a wrong password.
pub humanize_unauthorized :
    (area : Area) (message : String)
    → area ≢ login
    → humanize area (api_error message 401) ≡ login_again
unfolding humanize generic_message
humanize_unauthorized login message h = absurd (h refl)
humanize_unauthorized _ message h = refl

-- Two responses that fail with one status and whose bodies have the same `detail` throw the same error,
-- whatever else the bodies hold: the `error` code of the server is lost.
pub receive-detail :
    (res1 res2 : Response) (v w : Json)
    → res1.status ≡ res2.status
    → is_ok res1 ≡ false
    → res1.json ≡ some v
    → res2.json ≡ some w
    → v ≢ null
    → w ≢ null
    → property "detail" v ≡ property "detail" w
    → receive res1 ≡ receive res2
unfolding receive
receive-detail res1 res2 null w same bad e f hv hw d = absurd (hv refl)
receive-detail res1 res2 (obj x) null same bad e f hv hw d = absurd (hw refl)
receive-detail res1 res2 v w same bad e f hv hw d = ground arith

-- What the client throws for an error of the server: its message and its status, and not its code.
receive-app_error_response :
    (reason : String) (exc : AppError)
    → is_ok (app_error_response reason exc) ≡ false
    → status_code exc ≢ 401
    → receive (app_error_response reason exc) ≡ err (api_error exc.message (status_code exc))
unfolding receive app_error_response string_eq
receive-app_error_response reason exc bad h = ground arith

-- The words that the texts for leads and for payments look for.
abbrev pub lead_codes : List String
lead_codes =
    "FEATURE_DISABLED" ∷ "PLAN_NOT_FOUND" ∷ "LEAD_ALREADY_CONVERTED"
    ∷ "INVALID_LEAD_STATUS_TRANSITION" ∷ "MEMBER_ALREADY_EXISTS"
    ∷ "SUBSCRIPTION_PLAN_TENANT_MISMATCH" ∷ []

abbrev pub payment_codes : List String
payment_codes =
    "PAYMENT_REFUND_EXCEEDS_ORIGINAL" ∷ "PAYMENT_ALREADY_FULLY_REFUNDED" ∷ "PAYMENT_AMOUNT_INVALID"
    ∷ []

abbrev pub Lacks : String → List String → Type 0
Lacks message codes = All (λ code. has message code ≡ false) codes

-- What is left of the texts where those words are missing.
abbrev pub plain_lead_message : ℕ → Message
plain_lead_message status =
    if eqb status 404
    then lead_not_found
    else if eqb status 422
    then check_form
    else generic_message status

abbrev pub plain_payment_message : ℕ → Message
plain_payment_message status =
    if eqb status 404
    then payment_not_found
    else if eqb status 422
    then check_form
    else generic_message status

lead_by_status :
    (message : String) (status : ℕ)
    → Lacks message lead_codes
    → humanize lead (api_error message status) ≡ plain_lead_message status
unfolding humanize
lead_by_status message status h = ground arith

payment_by_status :
    (message : String) (status : ℕ)
    → Lacks message payment_codes
    → humanize payment (api_error message status) ≡ plain_payment_message status
unfolding humanize generic_message
payment_by_status message status h = ground arith

-- The server answers an error with its code beside its message, and the client keeps the message alone.
-- Where the status is not 401 and the message does not spell a code out, the leads and the payments show a text by the status
-- alone, and none of the texts that the codes ask for.
pub app_error_shown :
    (reason : String) (exc : AppError)
    → is_ok (app_error_response reason exc) ≡ false
    → status_code exc ≢ 401
    → Lacks exc.message lead_codes
    → Lacks exc.message payment_codes
    → (t : Thrown) × (receive (app_error_response reason exc) ≡ err t)
      × (humanize lead t ≡ plain_lead_message (status_code exc))
      × (humanize payment t ≡ plain_payment_message (status_code exc))
app_error_shown reason exc bad h no_lead no_payment = (
  api_error exc.message (status_code exc),
  receive-app_error_response reason exc bad h,
  lead_by_status exc.message (status_code exc) no_lead,
  payment_by_status exc.message (status_code exc) no_payment,
)
