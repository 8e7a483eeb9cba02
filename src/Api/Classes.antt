-- ===== src/Api/Classes.antt =====
-- frontend/src/features/classes/api.ts
use dopacrm.Base.{Bool, String, ◌<>◌, Option, none, some, [], ◌∷◌, ℕ}
use dopacrm.Http.Json.{Json}
use dopacrm.Http.Fetch.{Fetch, Result}
use dopacrm.Http.Client.{get, post, patch}
use dopacrm.Api.Params.{Params, set_number, set_true, query, path}

pub record ClassFilters : Type 0 where
  pub include_inactive : Option Bool
  pub limit : Option ℕ
  pub offset : Option ℕ

abbrev pub class_filters_params : ClassFilters → Params
class_filters_params f =
    set_number "offset" f.offset
      (set_number "limit" f.limit (set_true "include_inactive" f.include_inactive []))

module _ (fetch : Fetch) where
  unfoldable pub list_classes : ClassFilters → Result (Option Json)
  list_classes filters = get fetch (path ("classes" ∷ []) <> query (class_filters_params filters))

  unfoldable pub get_class : String → Result (Option Json)
  get_class id = get fetch (path ("classes" ∷ id ∷ []))

  unfoldable pub create_class : Json → Result (Option Json)
  create_class body = post fetch (path ("classes" ∷ [])) (some body)

  unfoldable pub update_class : String → Json → Result (Option Json)
  update_class id body = patch fetch (path ("classes" ∷ id ∷ [])) (some body)

  unfoldable pub deactivate_class : String → Result (Option Json)
  deactivate_class id = post fetch (path ("classes" ∷ id ∷ "deactivate" ∷ [])) none

  unfoldable pub activate_class : String → Result (Option Json)
  activate_class id = post fetch (path ("classes" ∷ id ∷ "activate" ∷ [])) none
