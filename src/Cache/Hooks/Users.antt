-- ===== src/Cache/Hooks/Users.antt =====
-- frontend/src/features/users/hooks.ts
use dopacrm.Base.{String, Option, none, some, [], ◌∷◌, if◌then◌else◌}
use dopacrm.Http.Json.{Json}
use dopacrm.Api.Users
use dopacrm.Cache.Keys.{word}
use dopacrm.Cache.Hooks.{QueryOptions, MutationOptions, invalidate, is_set}

abbrev pub use_tenant_users : String → QueryOptions
use_tenant_users tenant_id = record {
  query_key = word "tenants" ∷ word tenant_id ∷ word "users" ∷ [];
  query_fn = λ fetch. Users.list_users_for_tenant fetch tenant_id;
  enabled = is_set tenant_id;
}

abbrev pub use_create_user : Option String → Json → MutationOptions
use_create_user tenant body = record {
  mutation_fn = λ fetch. Users.create_user fetch body;
  on_success = λ _. elim tenant [
    | none ↦ []
    | some id ↦
        if is_set id
        then invalidate (word "tenants" ∷ word id ∷ word "users" ∷ [])
          ∷ invalidate (word "tenants" ∷ word id ∷ word "stats" ∷ [])
          ∷ []
        else []
  ];
}

abbrev pub use_update_user : Option String → String → Json → MutationOptions
use_update_user tenant id body = record {
  mutation_fn = λ fetch. Users.update_user fetch id body;
  on_success = λ _. elim tenant [
    | none ↦ []
    | some id ↦
        if is_set id then invalidate (word "tenants" ∷ word id ∷ word "users" ∷ []) ∷ [] else []
  ];
}

abbrev pub use_delete_user : Option String → String → MutationOptions
use_delete_user tenant id = record {
  mutation_fn = λ fetch. Users.delete_user fetch id;
  on_success = λ _. elim tenant [
    | none ↦ []
    | some id ↦
        if is_set id
        then invalidate (word "tenants" ∷ word id ∷ word "users" ∷ [])
          ∷ invalidate (word "tenants" ∷ word id ∷ word "stats" ∷ [])
          ∷ []
        else []
  ];
}
