-- ===== src/Api/Plans.antt =====
-- frontend/src/features/plans/api.ts
use dopacrm.Base.{Bool, String, ◌<>◌, Option, none, some, [], ◌∷◌, ℕ}
use dopacrm.Http.Json.{Json}
use dopacrm.Http.Fetch.{Fetch, Result}
use dopacrm.Http.Client.{get, post, patch}
use dopacrm.Api.Params.{Params, set_number, set_true, query, path}

pub record PlanFilters : Type 0 where
  pub include_inactive : Option Bool
  pub limit : Option ℕ
  pub offset : Option ℕ

abbrev pub plan_filters_params : PlanFilters → Params
plan_filters_params f =
    set_number "offset" f.offset
      (set_number "limit" f.limit (set_true "include_inactive" f.include_inactive []))

module _ (fetch : Fetch) where
  unfoldable pub list_plans : PlanFilters → Result (Option Json)
  list_plans filters = get fetch (path ("plans" ∷ []) <> query (plan_filters_params filters))

  unfoldable pub get_plan : String → Result (Option Json)
  get_plan id = get fetch (path ("plans" ∷ id ∷ []))

  unfoldable pub create_plan : Json → Result (Option Json)
  create_plan body = post fetch (path ("plans" ∷ [])) (some body)

  unfoldable pub update_plan : String → Json → Result (Option Json)
  update_plan id body = patch fetch (path ("plans" ∷ id ∷ [])) (some body)

  unfoldable pub deactivate_plan : String → Result (Option Json)
  deactivate_plan id = post fetch (path ("plans" ∷ id ∷ "deactivate" ∷ [])) none

  unfoldable pub activate_plan : String → Result (Option Json)
  activate_plan id = post fetch (path ("plans" ∷ id ∷ "activate" ∷ [])) none
