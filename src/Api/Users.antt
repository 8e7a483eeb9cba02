-- ===== src/Api/Users.antt =====
-- frontend/src/features/users/api.ts
use dopacrm.Base.{String, Option, some, [], ◌∷◌}
use dopacrm.Http.Json.{Json}
use dopacrm.Http.Fetch.{Fetch, Result}
use dopacrm.Http.Client.{get, post, patch, delete}
use dopacrm.Api.Params.{path}

module _ (fetch : Fetch) where
  unfoldable pub create_user : Json → Result (Option Json)
  create_user body = post fetch (path ("users" ∷ [])) (some body)

  unfoldable pub list_users_for_tenant : String → Result (Option Json)
  list_users_for_tenant tenant_id = get fetch (path ("tenants" ∷ tenant_id ∷ "users" ∷ []))

  unfoldable pub update_user : String → Json → Result (Option Json)
  update_user id body = patch fetch (path ("users" ∷ id ∷ [])) (some body)

  unfoldable pub delete_user : String → Result (Option Json)
  delete_user id = delete fetch (path ("users" ∷ id ∷ []))
