-- ===== src/Cache/Hooks/Tenants.antt =====
-- frontend/src/features/tenants/hooks.ts
use dopacrm.Base.{true, String, [], ◌∷◌}
use dopacrm.Http.Json.{Json}
use dopacrm.Http.Client
use dopacrm.Api.Tenants
use dopacrm.Cache.Keys.{word}
use dopacrm.Cache.Hooks.{QueryOptions, MutationOptions, invalidate, is_set}

abbrev pub use_tenants : QueryOptions
use_tenants = record {
  query_key = word "tenants" ∷ [];
  query_fn = λ fetch. Tenants.list_tenants fetch;
  enabled = true;
}

abbrev pub use_tenant : String → QueryOptions
use_tenant id = record {
  query_key = word "tenants" ∷ word id ∷ [];
  query_fn = λ fetch. Tenants.get_tenant fetch id;
  enabled = is_set id;
}

abbrev pub use_tenant_stats : String → QueryOptions
use_tenant_stats id = record {
  query_key = word "tenants" ∷ word id ∷ word "stats" ∷ [];
  query_fn = λ fetch. Tenants.get_tenant_stats fetch id;
  enabled = is_set id;
}

abbrev pub use_create_tenant : Json → MutationOptions
use_create_tenant body = record {
  mutation_fn = λ fetch. Tenants.create_tenant fetch body;
  on_success = λ _. invalidate (word "tenants" ∷ []) ∷ [];
}

abbrev pub use_update_tenant : String → Json → MutationOptions
use_update_tenant id body = record {
  mutation_fn = λ fetch. Tenants.update_tenant fetch id body;
  on_success = λ _. invalidate (word "tenants" ∷ []) ∷ [];
}

abbrev pub use_suspend_tenant : String → MutationOptions
use_suspend_tenant id = record {
  mutation_fn = λ fetch. Tenants.suspend_tenant fetch id;
  on_success = λ _. invalidate (word "tenants" ∷ []) ∷ [];
}

abbrev pub use_activate_tenant : String → MutationOptions
use_activate_tenant id = record {
  mutation_fn = λ fetch. Tenants.activate_tenant fetch id;
  on_success = λ _. invalidate (word "tenants" ∷ []) ∷ [];
}

abbrev pub use_cancel_tenant : String → MutationOptions
use_cancel_tenant id = record {
  mutation_fn = λ fetch. Tenants.cancel_tenant fetch id;
  on_success = λ _. invalidate (word "tenants" ∷ []) ∷ [];
}

abbrev pub use_upload_logo : String → MutationOptions
use_upload_logo file = record {
  mutation_fn = λ fetch. Client.upload_logo fetch file;
  on_success = λ _. [];
}
