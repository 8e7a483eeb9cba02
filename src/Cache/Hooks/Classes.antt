-- ===== src/Cache/Hooks/Classes.antt =====
-- frontend/src/features/classes/hooks.ts
use dopacrm.Base.{true, String, [], ◌∷◌}
use dopacrm.Http.Json.{Json}
use dopacrm.Api.Classes
use dopacrm.Api.Classes.{ClassFilters}
use dopacrm.Cache.Keys.{word, object}
use dopacrm.Cache.Filters.{class_filters_object}
use dopacrm.Cache.Hooks.{QueryOptions, MutationOptions, invalidate, set_data, is_set}

abbrev pub use_classes : ClassFilters → QueryOptions
use_classes filters = record {
  query_key = word "classes" ∷ object (class_filters_object filters) ∷ [];
  query_fn = λ fetch. Classes.list_classes fetch filters;
  enabled = true;
}

abbrev pub use_class : String → QueryOptions
use_class id = record {
  query_key = word "classes" ∷ word id ∷ [];
  query_fn = λ fetch. Classes.get_class fetch id;
  enabled = is_set id;
}

abbrev pub use_create_class : Json → MutationOptions
use_create_class body = record {
  mutation_fn = λ fetch. Classes.create_class fetch body;
  on_success = λ _. invalidate (word "classes" ∷ []) ∷ [];
}

abbrev pub use_update_class : String → Json → MutationOptions
use_update_class id body = record {
  mutation_fn = λ fetch. Classes.update_class fetch id body;
  on_success = λ a.
      invalidate (word "classes" ∷ []) ∷ set_data (word "classes" ∷ word a.id ∷ []) a.json ∷ [];
}

abbrev pub use_deactivate_class : String → MutationOptions
use_deactivate_class id = record {
  mutation_fn = λ fetch. Classes.deactivate_class fetch id;
  on_success = λ _. invalidate (word "classes" ∷ []) ∷ [];
}

abbrev pub use_activate_class : String → MutationOptions
use_activate_class id = record {
  mutation_fn = λ fetch. Classes.activate_class fetch id;
  on_success = λ _. invalidate (word "classes" ∷ []) ∷ [];
}
