-- ===== src/Api/Attendance.antt =====
-- frontend/src/features/attendance/api.ts
use dopacrm.Base.{Bool, String, ◌<>◌, Option, some, [], ◌∷◌, ℕ, decimal}
use dopacrm.Http.Json.{Json}
use dopacrm.Http.Fetch.{Fetch, Result}
use dopacrm.Http.Client.{get, post}
use dopacrm.Api.Params.{Params, set_text, set_number, set_true, query, to_string, path}

pub record EntryFilters : Type 0 where
  pub member_id : Option String
  pub class_id : Option String
  pub date_from : Option String
  pub date_to : Option String
  pub include_undone : Option Bool
  pub undone_only : Option Bool
  pub override_only : Option Bool
  pub limit : Option ℕ
  pub offset : Option ℕ

abbrev pub entry_filters_params : EntryFilters → Params
entry_filters_params f = set_number "offset" f.offset (
    set_number "limit" f.limit (
      set_true "override_only" f.override_only (
        set_true "undone_only" f.undone_only (
          set_true "include_undone" f.include_undone (
            set_text "date_to" f.date_to (
              set_text "date_from" f.date_from
                (set_text "class_id" f.class_id (set_text "member_id" f.member_id []))))))))

module _ (fetch : Fetch) where
  unfoldable pub quota_check : String → String → Result (Option Json)
  quota_check member_id class_id = get fetch (
      path ("attendance" ∷ "quota-check" ∷ [])
      <> "?"
      <> to_string (("member_id", member_id) ∷ ("class_id", class_id) ∷ []))

  unfoldable pub record_entry : Json → Result (Option Json)
  record_entry body = post fetch (path ("attendance" ∷ [])) (some body)

  unfoldable pub undo_entry : String → Json → Result (Option Json)
  undo_entry id body = post fetch (path ("attendance" ∷ id ∷ "undo" ∷ [])) (some body)

  unfoldable pub list_entries : EntryFilters → Result (Option Json)
  list_entries filters =
      get fetch (path ("attendance" ∷ []) <> query (entry_filters_params filters))

  unfoldable pub list_member_entries : String → ℕ → Result (Option Json)
  list_member_entries member_id limit =
      get fetch (path ("attendance" ∷ "members" ∷ member_id ∷ []) <> "?limit=" <> decimal limit)

  unfoldable pub member_summary : String → Result (Option Json)
  member_summary member_id =
      get fetch (path ("attendance" ∷ "members" ∷ member_id ∷ "summary" ∷ []))
