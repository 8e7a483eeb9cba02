-- ===== src/Cache/Hooks/Plans.antt =====
-- frontend/src/features/plans/hooks.ts
use dopacrm.Base.{true, String, [], ◌∷◌}
use dopacrm.Http.Json.{Json}
use dopacrm.Api.Plans
use dopacrm.Api.Plans.{PlanFilters}
use dopacrm.Cache.Keys.{word, object}
use dopacrm.Cache.Filters.{plan_filters_object}
use dopacrm.Cache.Hooks.{QueryOptions, MutationOptions, invalidate, set_data, is_set}

abbrev pub use_plans : PlanFilters → QueryOptions
use_plans filters = record {
  query_key = word "plans" ∷ object (plan_filters_object filters) ∷ [];
  query_fn = λ fetch. Plans.list_plans fetch filters;
  enabled = true;
}

abbrev pub use_plan : String → QueryOptions
use_plan id = record {
  query_key = word "plans" ∷ word id ∷ [];
  query_fn = λ fetch. Plans.get_plan fetch id;
  enabled = is_set id;
}

abbrev pub use_create_plan : Json → MutationOptions
use_create_plan body = record {
  mutation_fn = λ fetch. Plans.create_plan fetch body;
  on_success = λ _. invalidate (word "plans" ∷ []) ∷ [];
}

abbrev pub use_update_plan : String → Json → MutationOptions
use_update_plan id body = record {
  mutation_fn = λ fetch. Plans.update_plan fetch id body;
  on_success =
      λ a. invalidate (word "plans" ∷ []) ∷ set_data (word "plans" ∷ word a.id ∷ []) a.json ∷ [];
}

abbrev pub use_deactivate_plan : String → MutationOptions
use_deactivate_plan id = record {
  mutation_fn = λ fetch. Plans.deactivate_plan fetch id;
  on_success = λ _. invalidate (word "plans" ∷ []) ∷ [];
}

abbrev pub use_activate_plan : String → MutationOptions
use_activate_plan id = record {
  mutation_fn = λ fetch. Plans.activate_plan fetch id;
  on_success = λ _. invalidate (word "plans" ∷ []) ∷ [];
}
