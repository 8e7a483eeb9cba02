-- ===== src/Cache/Hooks/Attendance.antt =====
-- frontend/src/features/attendance/hooks.ts
use dopacrm.Base.{Bool, true, String, List, [], ◌∷◌, ◌&&◌}
use dopacrm.Http.Json.{Json}
use dopacrm.Api.Attendance
use dopacrm.Api.Attendance.{EntryFilters}
use dopacrm.Cache.Keys.{word, object}
use dopacrm.Cache.Filters.{entry_filters_object}
use dopacrm.Cache.Hooks.{QueryOptions, MutationOptions, Effect, invalidate, is_set}

abbrev pub use_attendance_list : EntryFilters → QueryOptions
use_attendance_list filters = record {
  query_key = word "attendance" ∷ word "list" ∷ object (entry_filters_object filters) ∷ [];
  query_fn = λ fetch. Attendance.list_entries fetch filters;
  enabled = true;
}

abbrev pub use_member_attendance : String → QueryOptions
use_member_attendance member_id = record {
  query_key = word "attendance" ∷ word "member" ∷ word member_id ∷ [];
  query_fn = λ fetch. Attendance.list_member_entries fetch member_id 50;
  enabled = is_set member_id;
}

abbrev pub use_member_attendance_summary : String → QueryOptions
use_member_attendance_summary member_id = record {
  query_key = word "attendance" ∷ word "summary" ∷ word member_id ∷ [];
  query_fn = λ fetch. Attendance.member_summary fetch member_id;
  enabled = is_set member_id;
}

abbrev pub use_quota_check : String → String → Bool → QueryOptions
use_quota_check member_id class_id enabled = record {
  query_key = word "attendance" ∷ word "quota-check" ∷ word member_id ∷ word class_id ∷ [];
  query_fn = λ fetch. Attendance.quota_check fetch member_id class_id;
  enabled = enabled && is_set member_id && is_set class_id;
}

abbrev pub invalidate_all : List Effect
invalidate_all = invalidate (word "attendance" ∷ []) ∷ []

abbrev pub use_record_entry : Json → MutationOptions
use_record_entry body = record {
  mutation_fn = λ fetch. Attendance.record_entry fetch body;
  on_success = λ _. invalidate_all;
}

abbrev pub use_undo_entry : String → Json → MutationOptions
use_undo_entry id body = record {
  mutation_fn = λ fetch. Attendance.undo_entry fetch id body;
  on_success = λ _. invalidate_all;
}
