-- ===== src/Cache/Hooks/Members.antt =====
-- frontend/src/features/members/hooks.ts
use dopacrm.Base.{true, String, Option, [], ◌∷◌}
use dopacrm.Http.Json.{Json}
use dopacrm.Api.Members
use dopacrm.Api.Members.{MemberFilters}
use dopacrm.Cache.Keys.{word, object}
use dopacrm.Cache.Filters.{member_filters_object}
use dopacrm.Cache.Hooks.{QueryOptions, MutationOptions, invalidate, set_data, is_set}

abbrev pub use_members : MemberFilters → QueryOptions
use_members filters = record {
  query_key = word "members" ∷ object (member_filters_object filters) ∷ [];
  query_fn = λ fetch. Members.list_members fetch filters;
  enabled = true;
}

abbrev pub use_member : String → QueryOptions
use_member id = record {
  query_key = word "members" ∷ word id ∷ [];
  query_fn = λ fetch. Members.get_member fetch id;
  enabled = is_set id;
}

abbrev pub use_create_member : Json → MutationOptions
use_create_member body = record {
  mutation_fn = λ fetch. Members.create_member fetch body;
  on_success = λ a.
      invalidate (word "members" ∷ [])
      ∷ invalidate (word "tenants" ∷ word a.tenant_id ∷ word "stats" ∷ [])
      ∷ [];
}

abbrev pub use_update_member : String → Json → MutationOptions
use_update_member id body = record {
  mutation_fn = λ fetch. Members.update_member fetch id body;
  on_success = λ a.
      invalidate (word "members" ∷ []) ∷ set_data (word "members" ∷ word a.id ∷ []) a.json ∷ [];
}

abbrev pub use_freeze_member : String → Option String → MutationOptions
use_freeze_member id until = record {
  mutation_fn = λ fetch. Members.freeze_member fetch id until;
  on_success = λ a.
      invalidate (word "members" ∷ [])
      ∷ invalidate (word "tenants" ∷ word a.tenant_id ∷ word "stats" ∷ [])
      ∷ [];
}

abbrev pub use_unfreeze_member : String → MutationOptions
use_unfreeze_member id = record {
  mutation_fn = λ fetch. Members.unfreeze_member fetch id;
  on_success = λ a.
      invalidate (word "members" ∷ [])
      ∷ invalidate (word "tenants" ∷ word a.tenant_id ∷ word "stats" ∷ [])
      ∷ [];
}

abbrev pub use_cancel_member : String → MutationOptions
use_cancel_member id = record {
  mutation_fn = λ fetch. Members.cancel_member fetch id;
  on_success = λ a.
      invalidate (word "members" ∷ [])
      ∷ invalidate (word "tenants" ∷ word a.tenant_id ∷ word "stats" ∷ [])
      ∷ [];
}
