-- ===== src/Api/Stats.antt =====
-- frontend/src/features/dashboard/api.ts
use dopacrm.Base.{Option, [], ◌∷◌}
use dopacrm.Http.Json.{Json}
use dopacrm.Http.Fetch.{Fetch, Result}
use dopacrm.Http.Client.{get}
use dopacrm.Api.Params.{path}

module _ (fetch : Fetch) where
  unfoldable pub get_platform_stats : Result (Option Json)
  get_platform_stats = get fetch (path ("admin" ∷ "stats" ∷ []))
