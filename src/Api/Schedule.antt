-- ===== src/Api/Schedule.antt =====
-- frontend/src/features/schedule/api.ts
use dopacrm.Base.{Bool, String, ◌<>◌, Option, some, [], ◌∷◌}
use dopacrm.Http.Json.{Json}
use dopacrm.Http.Fetch.{Fetch, Result}
use dopacrm.Http.Client.{get, post, patch, delete}
use dopacrm.Api.Params.{Params, set_text, set_true, set_false, query, to_string, path}

pub record TemplateFilters : Type 0 where
  pub class_id : Option String
  pub only_active : Option Bool

abbrev pub template_filters_params : TemplateFilters → Params
template_filters_params f = set_true "only_active" f.only_active (set_text "class_id" f.class_id [])

pub record SessionRange : Type 0 where
  pub from : String
  pub to : String
  pub class_id : Option String
  pub coach_id : Option String
  pub include_cancelled : Option Bool

abbrev pub session_range_params : SessionRange → Params
session_range_params f = set_false "include_cancelled" f.include_cancelled (
    set_text "coach_id" f.coach_id
      (set_text "class_id" f.class_id (("from", f.from) ∷ ("to", f.to) ∷ [])))

module _ (fetch : Fetch) where
  unfoldable pub list_templates : TemplateFilters → Result (Option Json)
  list_templates filters =
      get fetch (path ("schedule" ∷ "templates" ∷ []) <> query (template_filters_params filters))

  unfoldable pub get_template : String → Result (Option Json)
  get_template id = get fetch (path ("schedule" ∷ "templates" ∷ id ∷ []))

  unfoldable pub create_template : Json → Result (Option Json)
  create_template body = post fetch (path ("schedule" ∷ "templates" ∷ [])) (some body)

  unfoldable pub update_template : String → Json → Result (Option Json)
  update_template id body = patch fetch (path ("schedule" ∷ "templates" ∷ id ∷ [])) (some body)

  unfoldable pub deactivate_template : String → Result (Option Json)
  deactivate_template id = delete fetch (path ("schedule" ∷ "templates" ∷ id ∷ []))

  unfoldable pub list_sessions : SessionRange → Result (Option Json)
  list_sessions range =
      get fetch
        (path ("schedule" ∷ "sessions" ∷ []) <> "?" <> to_string (session_range_params range))

  unfoldable pub get_session : String → Result (Option Json)
  get_session id = get fetch (path ("schedule" ∷ "sessions" ∷ id ∷ []))

  unfoldable pub create_ad_hoc_session : Json → Result (Option Json)
  create_ad_hoc_session body = post fetch (path ("schedule" ∷ "sessions" ∷ [])) (some body)

  unfoldable pub update_session : String → Json → Result (Option Json)
  update_session id body = patch fetch (path ("schedule" ∷ "sessions" ∷ id ∷ [])) (some body)

  unfoldable pub cancel_session : String → Json → Result (Option Json)
  cancel_session id body =
      post fetch (path ("schedule" ∷ "sessions" ∷ id ∷ "cancel" ∷ [])) (some body)

  unfoldable pub bulk_action : Json → Result (Option Json)
  bulk_action body = post fetch (path ("schedule" ∷ "bulk-action" ∷ [])) (some body)

  unfoldable pub update_tenant_features : String → Json → Result (Option Json)
  update_tenant_features tenant_id body =
      patch fetch (path ("tenants" ∷ tenant_id ∷ "features" ∷ [])) (some body)
