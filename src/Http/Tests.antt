-- ===== src/Http/Tests.antt =====
-- Runs of the client and of the texts, and the theorems on them at concrete answers.
use dopacrm.Base.{◌≡◌, refl, ◌⊎◌, none, some, ℕ, arith, string_eq}
use dopacrm.Http.Json.{Json, null, str, obj, field, end}
use dopacrm.Http.Fetch.{Method, Response, Fetch, Thrown, api_error, plain_error, err}
use dopacrm.Http.Client.{api_call, receive, request, upload_logo}
use dopacrm.Http.Client.Laws.{Explains, request-eq-err}
use dopacrm.Http.Messages.{has, item_exists, generic_message}
use dopacrm.Http.Messages.Humanize.{lead, payment, humanize}
use dopacrm.Http.Messages.Laws.{app_error_shown, plain_lead_message, plain_payment_message}
use dopacrm.Server.{lead_already_converted, app_error_response, status_code}

abbrev refused : ℕ → Json → Response
refused status body = record { status = status; status_text = ""; json = some body }

abbrev answered : Response → Fetch
answered res call = some res

abbrev again : Response
again = app_error_response "Conflict" (lead_already_converted "7b1c")

-- The text for a lead that was converted before is never shown.
converted_again : receive again ≡ err (api_error "Lead already converted: 7b1c" 409)
unfolding receive app_error_response status_code string_eq
converted_again = refl

converted_again_text : humanize lead (api_error "Lead already converted: 7b1c" 409) ≡ item_exists
unfolding humanize generic_message has
converted_again_text = refl

server_error :
    request (answered (refused 502 null)) Method.get "/leads" none ≡ err (plain_error "TypeError")
unfolding request
server_error = refl

request-eq-err_example :
    ((answered (refused 502 null) (api_call Method.get "/leads" none) ≡ none)
      × (plain_error "TypeError" ≡ api_error "network" 0))
    ⊎ ((res : Response) × (answered (refused 502 null) (api_call Method.get "/leads" none)
          ≡ some res)
        × Explains res (plain_error "TypeError"))
request-eq-err_example =
    request-eq-err (answered (refused 502 null)) Method.get "/leads" none (plain_error "TypeError")
      server_error

abbrev bare : Json
bare = obj (field "detail" (str "taken") end)

abbrev coded : Json
coded = obj (field "error" (str "SLUG") (field "detail" (str "taken") end))

app_error_shown_example :
    (t : Thrown) × (receive again ≡ err t)
    × (humanize lead t ≡ plain_lead_message (status_code (lead_already_converted "7b1c")))
    × (humanize payment t ≡ plain_payment_message (status_code (lead_already_converted "7b1c")))
unfolding app_error_response status_code has
app_error_shown_example =
    app_error_shown "Conflict" (lead_already_converted "7b1c") refl (λ e. absurd (omega arith))
      (ground arith) (ground arith)

too_large : upload_logo (answered (refused 413 bare)) "logo.png" ≡ err (plain_error "taken")
unfolding upload_logo string_eq
too_large = refl
