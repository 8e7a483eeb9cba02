-- ===== src/Members/Form.antt =====
-- `MemberForm` as MemberDetailPage.tsx of frontend/src/features/members shows it, and what the server makes of its
-- request: backend/app/api/v1/members/schemas.py and router.py, and `uq_members_tenant_phone` of the table. A date is its text. Whether a text is an email address or
-- a date is the browser's to check.
use dopacrm.Base.{
  Bool, not, ◌&&◌, String, Option, none, some, List, [], ◌∷◌, ℕ, leb, ◌==◌, string_eq, get_or,
  if◌then◌else◌, includes,
}
use dopacrm.Base.Scan.{or_null, size}
use dopacrm.Http.Json.{Json}

-- A row of the server, with the fields that the form knows.
pub record Member : Type 0 where
  pub first_name : String
  pub last_name : String
  pub phone : String
  pub email : Option String
  pub date_of_birth : Option String
  pub gender : Option String
  pub join_date : String
  pub notes : Option String
  pub custom_fields : Json

-- `MemberFormValues`
pub record FormValues : Type 0 where
  pub first_name : String
  pub last_name : String
  pub phone : String
  pub email : Option String
  pub date_of_birth : Option String
  pub gender : Option String
  pub join_date : Option String
  pub notes : Option String
  pub custom_fields : Json

-- `useState` of the form, for a member that is edited
abbrev pub from_member : Member → FormValues
from_member m = record {
  first_name = m.first_name;
  last_name = m.last_name;
  phone = m.phone;
  email = some (get_or m.email "");
  date_of_birth = m.date_of_birth;
  gender = some (get_or m.gender "");
  join_date = some m.join_date;
  notes = some (get_or m.notes "");
  custom_fields = m.custom_fields;
}

-- What a control of the form gives.
pub data MemberEdit : Type 0 where
  first_name_to last_name_to phone_to email_to birth_to gender_to join_to notes_to :
      String → MemberEdit

unfoldable pub set_field : MemberEdit → FormValues → FormValues
unfolding or_null
set_field (first_name_to v) f = record f { first_name = v }
set_field (last_name_to v) f = record f { last_name = v }
set_field (phone_to v) f = record f { phone = v }
set_field (email_to v) f = record f { email = or_null v }
set_field (birth_to v) f = record f { date_of_birth = or_null v }
set_field (gender_to v) f = record f { gender = or_null v }
set_field (join_to v) f = record f { join_date = or_null v }
set_field (notes_to v) f = record f { notes = or_null v }

-- The edits, the latest first.
abbrev pub edited : List MemberEdit → FormValues → FormValues
edited [] f = f
edited (e ∷ es) f = set_field e (edited es f)

-- The required fields.
unfoldable pub can_submit : FormValues → Bool
unfolding string_eq
can_submit f = not (f.first_name == "") && not (f.last_name == "") && not (f.phone == "")

abbrev pub is_between : ℕ → ℕ → String → Bool
is_between low high s = leb low (size s) && leb (size s) high

-- `UpdateMemberRequest`; a field that it does not declare is dropped.
unfoldable pub is_valid_update : FormValues → Bool
is_valid_update f =
    is_between 1 100 f.first_name
    && is_between 1 100 f.last_name
    && is_between 3 30 f.phone
    && is_between 0 200 (get_or f.email "")
    && is_between 0 50 (get_or f.gender "")

-- `update_member`, with the phones of the other members of the gym: `none` for a request that is not valid, or whose phone
-- another member has, otherwise the row with the fields of the request.
unfoldable pub update_member : List String → FormValues → Member → Option Member
unfolding is_valid_update string_eq
update_member others f m =
    if is_valid_update f && not (includes others f.phone)
    then some (record m {
      first_name = f.first_name;
      last_name = f.last_name;
      phone = f.phone;
      email = f.email;
      date_of_birth = f.date_of_birth;
      gender = f.gender;
      notes = f.notes;
      custom_fields = f.custom_fields;
    })
    else none
