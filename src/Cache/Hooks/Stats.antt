-- ===== src/Cache/Hooks/Stats.antt =====
-- frontend/src/features/dashboard/hooks.ts
use dopacrm.Base.{true, [], ◌∷◌}
use dopacrm.Api.Stats
use dopacrm.Cache.Keys.{word}
use dopacrm.Cache.Hooks.{QueryOptions}

abbrev pub use_platform_stats : QueryOptions
use_platform_stats = record {
  query_key = word "admin" ∷ word "platform-stats" ∷ [];
  query_fn = λ fetch. Stats.get_platform_stats fetch;
  enabled = true;
}
