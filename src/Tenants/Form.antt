-- ===== src/Tenants/Form.antt =====
-- TenantForm.tsx of frontend/src/features/tenants: its fields, and the slug that is made from the name of a new gym.
-- `toLowerCase` is a parameter.
pub mod Slug
pub mod Laws
use Prim.Native.Char.{Char, code}
use Prim.Native.String.{char_at}
use dopacrm.Base.{
  Bool, true, false, not, ◌&&◌, ◌||◌, String, Option, none, some, List, [], ◌∷◌, ℕ, eqb, ◌==◌,
  string_eq, if◌then◌else◌,
}
use dopacrm.Base.Scan.{is_space, trim}
use dopacrm.Server.Tenants.{is_slug_char}

-- `[a-z0-9\s-]`
abbrev pub is_kept : ℕ → Bool
is_kept n = is_slug_char n || is_space n || eqb n 45

-- `replace(/[^a-z0-9\s-]/g, "")`
abbrev pub keep : String → String
keep String.[] = ""
keep (String.◌∷◌ c s) = let rest = keep s in if is_kept (code c) then String.◌∷◌ c rest else rest

abbrev pub starts_space : String → Bool
starts_space String.[] = false
starts_space (String.◌∷◌ c s) = is_space (code c)

-- `replace(/\s+/g, "-")`: the last of a run of spaces becomes a hyphen, the others go.
abbrev pub hyphens : String → String
hyphens String.[] = ""
hyphens (String.◌∷◌ c s) =
    let rest = hyphens s in
    if is_space (code c)
    then if starts_space s then rest else String.◌∷◌ (char_at "-" 0) rest
    else String.◌∷◌ c rest

pub record Values : Type 0 where
  pub slug : String
  pub name : String
  pub logo_url : Option String
  pub logo_presigned_url : Option String
  pub phone : String
  pub email : String
  pub website : String
  pub address_street : String
  pub address_city : String
  pub address_country : String
  pub address_postal_code : String
  pub legal_name : String
  pub tax_id : String
  pub timezone : String
  pub currency : String
  pub locale : String

-- The form of a new gym.
abbrev pub first_values : Values
first_values = record {
  slug = "";
  name = "";
  logo_url = none;
  logo_presigned_url = none;
  phone = "";
  email = "";
  website = "";
  address_street = "";
  address_city = "";
  address_country = "IL";
  address_postal_code = "";
  legal_name = "";
  tax_id = "";
  timezone = "Asia/Jerusalem";
  currency = "ILS";
  locale = "he-IL";
}

-- The fields whose control only sets them.
pub data Field : Type 0 where
  phone email website address_street address_city address_postal_code : Field
  address_country legal_name tax_id timezone currency : Field

abbrev pub set_field : Field → String → Values → Values
set_field phone v f = record f { phone = v }
set_field email v f = record f { email = v }
set_field website v f = record f { website = v }
set_field address_street v f = record f { address_street = v }
set_field address_city v f = record f { address_city = v }
set_field address_postal_code v f = record f { address_postal_code = v }
set_field address_country v f = record f { address_country = v }
set_field legal_name v f = record f { legal_name = v }
set_field tax_id v f = record f { tax_id = v }
set_field timezone v f = record f { timezone = v }
set_field currency v f = record f { currency = v }

pub data Edit : Type 0 where
  name_to slug_to : String → Edit
  field_to : Field → String → Edit
  -- an upload that came back, with its key and its address
  logo_uploaded : String → String → Edit

-- The slug is not typed by hand.
abbrev pub is_automatic : Edit → Bool
is_automatic (slug_to v) = false
is_automatic _ = true

module _ (lower : String → String) where
  unfoldable pub auto_slug : String → String
  unfolding trim
  auto_slug v = hyphens (trim (keep (lower v)))

  -- `handleNameChange`; `is_new` is `!initial?.id`
  unfoldable pub handle_name_change : Bool → String → Values → Values
  unfolding auto_slug
  handle_name_change is_new v f =
      if is_new then record f { name = v; slug = auto_slug v } else record f { name = v }

  unfoldable pub edit : Bool → Edit → Values → Values
  unfolding handle_name_change
  edit is_new (name_to v) f = handle_name_change is_new v f
  edit is_new (slug_to v) f = record f { slug = v }
  edit is_new (field_to k v) f = set_field k v f
  edit is_new (logo_uploaded key url) f = record f {
    logo_url = some key;
    logo_presigned_url = some url;
  }

  abbrev pub edits : Bool → List Edit → Values → Values
  edits is_new [] f = f
  edits is_new (e ∷ es) f = edits is_new es (edit is_new e f)

-- `required`
abbrev pub passes : Values → Bool
passes f = not (f.name == "") && not (f.slug == "")
