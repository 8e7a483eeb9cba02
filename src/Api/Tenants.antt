-- ===== src/Api/Tenants.antt =====
-- frontend/src/features/tenants/api.ts
use dopacrm.Base.{String, Option, none, some, [], ◌∷◌}
use dopacrm.Http.Json.{Json}
use dopacrm.Http.Fetch.{Fetch, Result}
use dopacrm.Http.Client.{get, post, patch}
use dopacrm.Api.Params.{path}

module _ (fetch : Fetch) where
  unfoldable pub list_tenants : Result (Option Json)
  list_tenants = get fetch (path ("tenants" ∷ []))

  unfoldable pub get_tenant : String → Result (Option Json)
  get_tenant id = get fetch (path ("tenants" ∷ id ∷ []))

  unfoldable pub create_tenant : Json → Result (Option Json)
  create_tenant body = post fetch (path ("tenants" ∷ [])) (some body)

  unfoldable pub update_tenant : String → Json → Result (Option Json)
  update_tenant id body = patch fetch (path ("tenants" ∷ id ∷ [])) (some body)

  unfoldable pub suspend_tenant : String → Result (Option Json)
  suspend_tenant id = post fetch (path ("tenants" ∷ id ∷ "suspend" ∷ [])) none

  unfoldable pub activate_tenant : String → Result (Option Json)
  activate_tenant id = post fetch (path ("tenants" ∷ id ∷ "activate" ∷ [])) none

  unfoldable pub cancel_tenant : String → Result (Option Json)
  cancel_tenant id = post fetch (path ("tenants" ∷ id ∷ "cancel" ∷ [])) none

  unfoldable pub get_tenant_stats : String → Result (Option Json)
  get_tenant_stats id = get fetch (path ("tenants" ∷ id ∷ "stats" ∷ []))
