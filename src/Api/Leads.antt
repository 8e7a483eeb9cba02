-- ===== src/Api/Leads.antt =====
-- frontend/src/features/leads/api.ts
use dopacrm.Base.{String, ◌<>◌, Option, some, List, [], ◌∷◌, ℕ}
use dopacrm.Http.Json.{Json}
use dopacrm.Http.Fetch.{Fetch, Result}
use dopacrm.Http.Client.{get, post, patch}
use dopacrm.Api.Params.{Params, set_text, set_number, append_each, query, path}

pub record LeadFilters : Type 0 where
  pub status : Option (List String)
  pub source : Option (List String)
  pub assigned_to : Option String
  pub search : Option String
  pub limit : Option ℕ
  pub offset : Option ℕ

abbrev pub lead_filters_params : LeadFilters → Params
lead_filters_params f = set_number "offset" f.offset (
    set_number "limit" f.limit (
      set_text "search" f.search (
        set_text "assigned_to" f.assigned_to
          (append_each "source" f.source (append_each "status" f.status [])))))

pub record ActivityFilters : Type 0 where
  pub limit : Option ℕ
  pub offset : Option ℕ

abbrev pub activity_filters_params : ActivityFilters → Params
activity_filters_params f = set_number "offset" f.offset (set_number "limit" f.limit [])

pub record LostReasonFilters : Type 0 where
  pub days : Option ℕ
  pub limit : Option ℕ

abbrev pub lost_reason_filters_params : LostReasonFilters → Params
lost_reason_filters_params f = set_number "limit" f.limit (set_number "days" f.days [])

module _ (fetch : Fetch) where
  unfoldable pub list_leads : LeadFilters → Result (Option Json)
  list_leads filters = get fetch (path ("leads" ∷ []) <> query (lead_filters_params filters))

  unfoldable pub get_lead : String → Result (Option Json)
  get_lead id = get fetch (path ("leads" ∷ id ∷ []))

  unfoldable pub create_lead : Json → Result (Option Json)
  create_lead body = post fetch (path ("leads" ∷ [])) (some body)

  unfoldable pub update_lead : String → Json → Result (Option Json)
  update_lead id body = patch fetch (path ("leads" ∷ id ∷ [])) (some body)

  unfoldable pub set_lead_status : String → Json → Result (Option Json)
  set_lead_status id body = post fetch (path ("leads" ∷ id ∷ "status" ∷ [])) (some body)

  unfoldable pub assign_lead : String → Json → Result (Option Json)
  assign_lead id body = post fetch (path ("leads" ∷ id ∷ "assign" ∷ [])) (some body)

  unfoldable pub convert_lead : String → Json → Result (Option Json)
  convert_lead id body = post fetch (path ("leads" ∷ id ∷ "convert" ∷ [])) (some body)

  unfoldable pub list_activities : String → ActivityFilters → Result (Option Json)
  list_activities lead_id filters =
      get fetch
        (path ("leads" ∷ lead_id ∷ "activities" ∷ []) <> query (activity_filters_params filters))

  unfoldable pub add_activity : String → Json → Result (Option Json)
  add_activity lead_id body = post fetch (path ("leads" ∷ lead_id ∷ "activities" ∷ [])) (some body)

  unfoldable pub get_lead_stats : Result (Option Json)
  get_lead_stats = get fetch (path ("leads" ∷ "stats" ∷ []))

  unfoldable pub list_lost_reasons : LostReasonFilters → Result (Option Json)
  list_lost_reasons filters =
      get fetch (path ("leads" ∷ "lost-reasons" ∷ []) <> query (lost_reason_filters_params filters))
