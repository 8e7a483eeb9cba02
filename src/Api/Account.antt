-- ===== src/Api/Account.antt =====
-- frontend/src/features/auth/api.ts
use dopacrm.Base.{Option, none, [], ◌∷◌}
use dopacrm.Http.Json.{Json}
use dopacrm.Http.Fetch.{Fetch, Result}
use dopacrm.Http.Client.{get, post}
use dopacrm.Api.Params.{path}

module _ (fetch : Fetch) where
  unfoldable pub get_me : Result (Option Json)
  get_me = get fetch (path ("auth" ∷ "me" ∷ []))

  unfoldable pub logout : Result (Option Json)
  logout = post fetch (path ("auth" ∷ "logout" ∷ [])) none
