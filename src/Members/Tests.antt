-- ===== src/Members/Tests.antt =====
-- A member whose date of joining is changed.
use dopacrm.Base.{◌≡◌, refl, none, some, [], ◌∷◌, List, string_eq}
use dopacrm.Base.Scan.{or_null}
use dopacrm.Http.Json.{obj, end}
use dopacrm.Members.Form.{
  Member, MemberEdit, join_to, from_member, set_field, edited, is_valid_update, update_member,
}

abbrev noa : Member
noa = record {
  first_name = "Noa";
  last_name = "Levi";
  phone = "050-1234567";
  email = none;
  date_of_birth = none;
  gender = none;
  join_date = "2026-01-04";
  notes = none;
  custom_fields = obj end;
}

abbrev moved : List MemberEdit
moved = join_to "2025-12-01" ∷ []

-- The server keeps the old date of joining, and gets empty texts for what was null.
join_date_kept :
    update_member [] (edited moved (from_member noa)) noa
    ≡ some (record noa { email = some ""; gender = some ""; notes = some "" })
unfolding update_member is_valid_update set_field or_null string_eq
join_date_kept = refl

-- The phone of another member is refused.
phone_taken : update_member ("050-1234567" ∷ []) (edited moved (from_member noa)) noa ≡ none
unfolding update_member is_valid_update set_field or_null string_eq
phone_taken = refl
