-- ===== src/Cache/Hooks/Leads.antt =====
-- frontend/src/features/leads/hooks.ts
use dopacrm.Base.{true, String, none, List, [], ◌∷◌, ◌++◌}
use dopacrm.Http.Json.{Json}
use dopacrm.Api.Leads
use dopacrm.Api.Leads.{LeadFilters, LostReasonFilters}
use dopacrm.Cache.Keys.{word, object}
use dopacrm.Cache.Filters.{lead_filters_object, lost_reason_filters_object}
use dopacrm.Cache.Hooks.{QueryOptions, MutationOptions, Effect, invalidate, set_data, is_set}

abbrev pub use_leads : LeadFilters → QueryOptions
use_leads filters = record {
  query_key = word "leads" ∷ object (lead_filters_object filters) ∷ [];
  query_fn = λ fetch. Leads.list_leads fetch filters;
  enabled = true;
}

abbrev pub use_lead : String → QueryOptions
use_lead id = record {
  query_key = word "leads" ∷ word id ∷ [];
  query_fn = λ fetch. Leads.get_lead fetch id;
  enabled = is_set id;
}

abbrev pub use_lead_activities : String → QueryOptions
use_lead_activities lead_id = record {
  query_key = word "leads" ∷ word lead_id ∷ word "activities" ∷ [];
  query_fn = λ fetch. Leads.list_activities fetch lead_id (record { limit = none; offset = none });
  enabled = is_set lead_id;
}

abbrev pub use_lead_stats : QueryOptions
use_lead_stats = record {
  query_key = word "leads" ∷ word "stats" ∷ [];
  query_fn = λ fetch. Leads.get_lead_stats fetch;
  enabled = true;
}

abbrev pub use_lost_reasons : LostReasonFilters → QueryOptions
use_lost_reasons filters = record {
  query_key = word "leads" ∷ word "lost-reasons" ∷ object (lost_reason_filters_object filters) ∷ [];
  query_fn = λ fetch. Leads.list_lost_reasons fetch filters;
  enabled = true;
}

abbrev pub invalidate_all_lead_queries : List Effect
invalidate_all_lead_queries = invalidate (word "leads" ∷ []) ∷ []

abbrev pub use_create_lead : Json → MutationOptions
use_create_lead body = record {
  mutation_fn = λ fetch. Leads.create_lead fetch body;
  on_success = λ _. invalidate_all_lead_queries;
}

abbrev pub use_update_lead : String → Json → MutationOptions
use_update_lead id body = record {
  mutation_fn = λ fetch. Leads.update_lead fetch id body;
  on_success =
      λ a. invalidate_all_lead_queries ++ (set_data (word "leads" ∷ word a.id ∷ []) a.json ∷ []);
}

abbrev pub use_set_lead_status : String → Json → MutationOptions
use_set_lead_status id body = record {
  mutation_fn = λ fetch. Leads.set_lead_status fetch id body;
  on_success =
      λ a. invalidate_all_lead_queries ++ (set_data (word "leads" ∷ word a.id ∷ []) a.json ∷ []);
}

abbrev pub use_assign_lead : String → Json → MutationOptions
use_assign_lead id body = record {
  mutation_fn = λ fetch. Leads.assign_lead fetch id body;
  on_success =
      λ a. invalidate_all_lead_queries ++ (set_data (word "leads" ∷ word a.id ∷ []) a.json ∷ []);
}

abbrev pub use_convert_lead : String → Json → MutationOptions
use_convert_lead id body = record {
  mutation_fn = λ fetch. Leads.convert_lead fetch id body;
  on_success = λ a.
      invalidate_all_lead_queries
      ++ (set_data (word "leads" ∷ word a.id ∷ []) a.json
          ∷ invalidate (word "members" ∷ [])
          ∷ invalidate (word "subscriptions" ∷ [])
          ∷ []);
}

abbrev pub use_add_activity : String → Json → MutationOptions
use_add_activity id body = record {
  mutation_fn = λ fetch. Leads.add_activity fetch id body;
  on_success = λ _. invalidate (word "leads" ∷ word id ∷ word "activities" ∷ []) ∷ [];
}
