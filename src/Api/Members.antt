-- ===== src/Api/Members.antt =====
-- frontend/src/features/members/api.ts
use dopacrm.Base.{String, ◌<>◌, Option, none, some, List, [], ◌∷◌, ℕ}
use dopacrm.Http.Json.{Json, obj, field, end}
use dopacrm.Http.Fetch.{Fetch, Result}
use dopacrm.Http.Client.{get, post, patch}
use dopacrm.Api.Params.{Params, set_text, set_number, append_each, query, path, nullable}

pub record MemberFilters : Type 0 where
  pub status : Option (List String)
  pub search : Option String
  pub limit : Option ℕ
  pub offset : Option ℕ

abbrev pub member_filters_params : MemberFilters → Params
member_filters_params f =
    set_number "offset" f.offset
      (set_number "limit" f.limit (set_text "search" f.search (append_each "status" f.status [])))

module _ (fetch : Fetch) where
  unfoldable pub list_members : MemberFilters → Result (Option Json)
  list_members filters = get fetch (path ("members" ∷ []) <> query (member_filters_params filters))

  unfoldable pub get_member : String → Result (Option Json)
  get_member id = get fetch (path ("members" ∷ id ∷ []))

  unfoldable pub create_member : Json → Result (Option Json)
  create_member body = post fetch (path ("members" ∷ [])) (some body)

  unfoldable pub update_member : String → Json → Result (Option Json)
  update_member id body = patch fetch (path ("members" ∷ id ∷ [])) (some body)

  unfoldable pub freeze_member : String → Option String → Result (Option Json)
  freeze_member id until =
      post fetch (path ("members" ∷ id ∷ "freeze" ∷ []))
        (some (obj (field "until" (nullable until) end)))

  unfoldable pub unfreeze_member : String → Result (Option Json)
  unfreeze_member id = post fetch (path ("members" ∷ id ∷ "unfreeze" ∷ [])) none

  unfoldable pub cancel_member : String → Result (Option Json)
  cancel_member id = post fetch (path ("members" ∷ id ∷ "cancel" ∷ [])) none
