-- ===== src/Cache/Hooks/Schedule.antt =====
-- frontend/src/features/schedule/hooks.ts
use dopacrm.Base.{true, String, [], ◌∷◌}
use dopacrm.Http.Json.{Json}
use dopacrm.Api.Schedule
use dopacrm.Api.Schedule.{SessionRange, TemplateFilters}
use dopacrm.Cache.Keys.{word, object}
use dopacrm.Cache.Filters.{session_range_object, template_filters_object}
use dopacrm.Cache.Hooks.{QueryOptions, MutationOptions, invalidate, set_data, is_set}

abbrev pub use_templates : TemplateFilters → QueryOptions
use_templates filters = record {
  query_key = word "schedule-templates" ∷ object (template_filters_object filters) ∷ [];
  query_fn = λ fetch. Schedule.list_templates fetch filters;
  enabled = true;
}

abbrev pub use_template : String → QueryOptions
use_template id = record {
  query_key = word "schedule-templates" ∷ word id ∷ [];
  query_fn = λ fetch. Schedule.get_template fetch id;
  enabled = is_set id;
}

abbrev pub use_sessions : SessionRange → QueryOptions
use_sessions range = record {
  query_key = word "schedule-sessions" ∷ object (session_range_object range) ∷ [];
  query_fn = λ fetch. Schedule.list_sessions fetch range;
  enabled = true;
}

abbrev pub use_session : String → QueryOptions
use_session id = record {
  query_key = word "schedule-sessions" ∷ word id ∷ [];
  query_fn = λ fetch. Schedule.get_session fetch id;
  enabled = is_set id;
}

abbrev pub use_create_template : Json → MutationOptions
use_create_template body = record {
  mutation_fn = λ fetch. Schedule.create_template fetch body;
  on_success = λ _.
      invalidate (word "schedule-templates" ∷ []) ∷ invalidate (word "schedule-sessions" ∷ []) ∷ [];
}

abbrev pub use_update_template : String → Json → MutationOptions
use_update_template id body = record {
  mutation_fn = λ fetch. Schedule.update_template fetch id body;
  on_success = λ _.
      invalidate (word "schedule-templates" ∷ []) ∷ invalidate (word "schedule-sessions" ∷ []) ∷ [];
}

abbrev pub use_deactivate_template : String → MutationOptions
use_deactivate_template id = record {
  mutation_fn = λ fetch. Schedule.deactivate_template fetch id;
  on_success = λ _.
      invalidate (word "schedule-templates" ∷ []) ∷ invalidate (word "schedule-sessions" ∷ []) ∷ [];
}

abbrev pub use_create_ad_hoc_session : Json → MutationOptions
use_create_ad_hoc_session body = record {
  mutation_fn = λ fetch. Schedule.create_ad_hoc_session fetch body;
  on_success = λ _. invalidate (word "schedule-sessions" ∷ []) ∷ [];
}

abbrev pub use_update_session : String → Json → MutationOptions
use_update_session id body = record {
  mutation_fn = λ fetch. Schedule.update_session fetch id body;
  on_success = λ _. invalidate (word "schedule-sessions" ∷ []) ∷ [];
}

abbrev pub use_cancel_session : String → Json → MutationOptions
use_cancel_session id body = record {
  mutation_fn = λ fetch. Schedule.cancel_session fetch id body;
  on_success = λ _. invalidate (word "schedule-sessions" ∷ []) ∷ [];
}

abbrev pub use_bulk_action : Json → MutationOptions
use_bulk_action body = record {
  mutation_fn = λ fetch. Schedule.bulk_action fetch body;
  on_success = λ _. invalidate (word "schedule-sessions" ∷ []) ∷ [];
}

abbrev pub use_update_tenant_features : String → Json → MutationOptions
use_update_tenant_features tenant_id body = record {
  mutation_fn = λ fetch. Schedule.update_tenant_features fetch tenant_id body;
  on_success = λ a.
      invalidate (word "tenants" ∷ []) ∷ set_data (word "tenants" ∷ word a.id ∷ []) a.json ∷ [];
}
