-- ===== src/Cache/Hooks/Coaches.antt =====
-- frontend/src/features/coaches/hooks.ts
use dopacrm.Base.{Bool, true, String, Option, [], ◌∷◌, ◌&&◌}
use dopacrm.Http.Json.{Json}
use dopacrm.Api.Coaches
use dopacrm.Api.Coaches.{CoachFilters}
use dopacrm.Cache.Keys.{word, object, flag}
use dopacrm.Cache.Filters.{coach_filters_object}
use dopacrm.Cache.Hooks.{QueryOptions, MutationOptions, invalidate, set_data, is_set}

abbrev pub use_coaches : CoachFilters → QueryOptions
use_coaches filters = record {
  query_key = word "coaches" ∷ object (coach_filters_object filters) ∷ [];
  query_fn = λ fetch. Coaches.list_coaches fetch filters;
  enabled = true;
}

abbrev pub use_coach : String → QueryOptions
use_coach id = record {
  query_key = word "coaches" ∷ word id ∷ [];
  query_fn = λ fetch. Coaches.get_coach fetch id;
  enabled = is_set id;
}

abbrev pub use_coaches_for_class : String → Bool → QueryOptions
use_coaches_for_class class_id only_current = record {
  query_key =
      word "class-coaches" ∷ word class_id ∷ object (("onlyCurrent", flag only_current) ∷ []) ∷ [];
  query_fn = λ fetch. Coaches.list_coaches_for_class fetch class_id only_current;
  enabled = is_set class_id;
}

abbrev pub use_classes_for_coach : String → Bool → QueryOptions
use_classes_for_coach coach_id only_current = record {
  query_key =
      word "coaches"
      ∷ word coach_id
      ∷ word "classes"
      ∷ object (("onlyCurrent", flag only_current) ∷ [])
      ∷ [];
  query_fn = λ fetch. Coaches.list_classes_for_coach fetch coach_id only_current;
  enabled = is_set coach_id;
}

abbrev pub use_coach_earnings : String → String → String → QueryOptions
use_coach_earnings coach_id from to = record {
  query_key = word "coaches" ∷ word coach_id ∷ word "earnings" ∷ word from ∷ word to ∷ [];
  query_fn = λ fetch. Coaches.get_coach_earnings fetch coach_id from to;
  enabled = is_set coach_id && is_set from && is_set to;
}

abbrev pub use_earnings_summary : String → String → QueryOptions
use_earnings_summary from to = record {
  query_key = word "coaches" ∷ word "earnings-summary" ∷ word from ∷ word to ∷ [];
  query_fn = λ fetch. Coaches.get_earnings_summary fetch from to;
  enabled = is_set from && is_set to;
}

abbrev pub use_create_coach : Json → MutationOptions
use_create_coach body = record {
  mutation_fn = λ fetch. Coaches.create_coach fetch body;
  on_success = λ _. invalidate (word "coaches" ∷ []) ∷ [];
}

abbrev pub use_update_coach : String → Json → MutationOptions
use_update_coach id body = record {
  mutation_fn = λ fetch. Coaches.update_coach fetch id body;
  on_success = λ a.
      invalidate (word "coaches" ∷ []) ∷ set_data (word "coaches" ∷ word a.id ∷ []) a.json ∷ [];
}

abbrev pub use_freeze_coach : String → MutationOptions
use_freeze_coach id = record {
  mutation_fn = λ fetch. Coaches.freeze_coach fetch id;
  on_success = λ _. invalidate (word "coaches" ∷ []) ∷ [];
}

abbrev pub use_unfreeze_coach : String → MutationOptions
use_unfreeze_coach id = record {
  mutation_fn = λ fetch. Coaches.unfreeze_coach fetch id;
  on_success = λ _. invalidate (word "coaches" ∷ []) ∷ [];
}

abbrev pub use_cancel_coach : String → MutationOptions
use_cancel_coach id = record {
  mutation_fn = λ fetch. Coaches.cancel_coach fetch id;
  on_success = λ _. invalidate (word "coaches" ∷ []) ∷ [];
}

abbrev pub use_invite_coach_user : String → Json → MutationOptions
use_invite_coach_user id body = record {
  mutation_fn = λ fetch. Coaches.invite_coach_user fetch id body;
  on_success = λ a.
      invalidate (word "coaches" ∷ []) ∷ set_data (word "coaches" ∷ word a.id ∷ []) a.json ∷ [];
}

abbrev pub use_assign_coach_to_class : String → Json → MutationOptions
use_assign_coach_to_class class_id body = record {
  mutation_fn = λ fetch. Coaches.assign_coach_to_class fetch class_id body;
  on_success = λ _.
      invalidate (word "class-coaches" ∷ word class_id ∷ [])
      ∷ invalidate (word "coaches" ∷ [])
      ∷ [];
}

abbrev pub use_update_class_coach_link : String → Json → MutationOptions
use_update_class_coach_link link_id body = record {
  mutation_fn = λ fetch. Coaches.update_class_coach_link fetch link_id body;
  on_success = λ _. invalidate (word "class-coaches" ∷ []) ∷ invalidate (word "coaches" ∷ []) ∷ [];
}

abbrev pub use_delete_class_coach_link : String → MutationOptions
use_delete_class_coach_link link_id = record {
  mutation_fn = λ fetch. Coaches.delete_class_coach_link fetch link_id;
  on_success = λ _. invalidate (word "class-coaches" ∷ []) ∷ invalidate (word "coaches" ∷ []) ∷ [];
}

abbrev pub use_reassign_entry_coach : String → Option String → MutationOptions
use_reassign_entry_coach entry_id coach_id = record {
  mutation_fn = λ fetch. Coaches.reassign_entry_coach fetch entry_id coach_id;
  on_success = λ _. invalidate (word "attendance" ∷ []) ∷ [];
}
