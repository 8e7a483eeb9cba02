-- ===== src/Api/Coaches.antt =====
-- frontend/src/features/coaches/api.ts
use dopacrm.Base.{Bool, String, ◌<>◌, Option, none, some, List, [], ◌∷◌, ℕ, if◌then◌else◌}
use dopacrm.Http.Json.{Json, obj, field, end}
use dopacrm.Http.Fetch.{Fetch, Result}
use dopacrm.Http.Client.{get, post, patch, delete}
use dopacrm.Api.Params.{Params, set_text, set_number, append_each, query, to_string, path, nullable}

pub record CoachFilters : Type 0 where
  pub status : Option (List String)
  pub search : Option String
  pub limit : Option ℕ
  pub offset : Option ℕ

abbrev pub coach_filters_params : CoachFilters → Params
coach_filters_params f =
    set_number "offset" f.offset
      (set_number "limit" f.limit (set_text "search" f.search (append_each "status" f.status [])))

module _ (fetch : Fetch) where
  unfoldable pub list_coaches : CoachFilters → Result (Option Json)
  list_coaches filters = get fetch (path ("coaches" ∷ []) <> query (coach_filters_params filters))

  unfoldable pub get_coach : String → Result (Option Json)
  get_coach id = get fetch (path ("coaches" ∷ id ∷ []))

  unfoldable pub create_coach : Json → Result (Option Json)
  create_coach body = post fetch (path ("coaches" ∷ [])) (some body)

  unfoldable pub update_coach : String → Json → Result (Option Json)
  update_coach id body = patch fetch (path ("coaches" ∷ id ∷ [])) (some body)

  unfoldable pub freeze_coach : String → Result (Option Json)
  freeze_coach id = post fetch (path ("coaches" ∷ id ∷ "freeze" ∷ [])) none

  unfoldable pub unfreeze_coach : String → Result (Option Json)
  unfreeze_coach id = post fetch (path ("coaches" ∷ id ∷ "unfreeze" ∷ [])) none

  unfoldable pub cancel_coach : String → Result (Option Json)
  cancel_coach id = post fetch (path ("coaches" ∷ id ∷ "cancel" ∷ [])) none

  unfoldable pub invite_coach_user : String → Json → Result (Option Json)
  invite_coach_user id body = post fetch (path ("coaches" ∷ id ∷ "invite-user" ∷ [])) (some body)

  unfoldable pub list_coaches_for_class : String → Bool → Result (Option Json)
  list_coaches_for_class class_id only_current = get fetch (
      path ("classes" ∷ class_id ∷ "coaches" ∷ [])
      <> (if only_current then "?only_current=true" else ""))

  unfoldable pub list_classes_for_coach : String → Bool → Result (Option Json)
  list_classes_for_coach coach_id only_current = get fetch (
      path ("coaches" ∷ coach_id ∷ "classes" ∷ [])
      <> (if only_current then "?only_current=true" else ""))

  unfoldable pub assign_coach_to_class : String → Json → Result (Option Json)
  assign_coach_to_class class_id body =
      post fetch (path ("classes" ∷ class_id ∷ "coaches" ∷ [])) (some body)

  unfoldable pub update_class_coach_link : String → Json → Result (Option Json)
  update_class_coach_link link_id body =
      patch fetch (path ("class-coaches" ∷ link_id ∷ [])) (some body)

  unfoldable pub delete_class_coach_link : String → Result (Option Json)
  delete_class_coach_link link_id = delete fetch (path ("class-coaches" ∷ link_id ∷ []))

  unfoldable pub get_coach_earnings : String → String → String → Result (Option Json)
  get_coach_earnings coach_id from to = get fetch (
      path ("coaches" ∷ coach_id ∷ "earnings" ∷ [])
      <> "?"
      <> to_string (("from", from) ∷ ("to", to) ∷ []))

  unfoldable pub get_earnings_summary : String → String → Result (Option Json)
  get_earnings_summary from to = get fetch (
      path ("coaches" ∷ "earnings" ∷ "summary" ∷ [])
      <> "?"
      <> to_string (("from", from) ∷ ("to", to) ∷ []))

  unfoldable pub reassign_entry_coach : String → Option String → Result (Option Json)
  reassign_entry_coach entry_id coach_id =
      post fetch (path ("attendance" ∷ entry_id ∷ "reassign-coach" ∷ []))
        (some (obj (field "coach_id" (nullable coach_id) end)))
