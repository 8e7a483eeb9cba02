-- ===== src/Tenants/Tests.antt =====
-- The slugs of two names, and the theorem at the first.
use dopacrm.Base.{
  ◌≡◌, refl, false, ◌&&◌, List, [], ◌∷◌, String, leb, string_eq, arith, includes, none, some,
  if◌then◌else◌,
}
use dopacrm.Base.Scan.{trim, size}
use dopacrm.Http.Messages.{to_lower_case}
use dopacrm.Server.Tenants.{valid_slug, slug_error, slug_taken, slug_unprocessable}
use dopacrm.Tenants.Form.{Edit, name_to, logo_uploaded, Field, edit, auto_slug, handle_name_change}
use dopacrm.Tenants.Form.Laws.{edits-valid_slug}

abbrev typing : List Edit
typing =
    name_to "Iron"
    ∷ Edit.field_to Field.address_city "Haifa"
    ∷ logo_uploaded "logos/1" "https://bucket/1"
    ∷ name_to " Iron  Fit TLV"
    ∷ []

iron_slug : auto_slug to_lower_case " Iron  Fit TLV" ≡ "iron-fit-tlv"
unfolding auto_slug to_lower_case trim string_eq
iron_slug = refl

-- The slugs of two gyms.
abbrev in_use : List String
in_use = "flex" ∷ "iron-fit-tlv" ∷ []

edits-valid_slug_example : slug_error in_use "iron-fit-tlv" ≡ (
    if leb 2 (size "iron-fit-tlv") && leb (size "iron-fit-tlv") 64
    then (if includes in_use "iron-fit-tlv" then some slug_taken else none)
    else some slug_unprocessable)
unfolding edit handle_name_change auto_slug to_lower_case trim string_eq
edits-valid_slug_example = edits-valid_slug to_lower_case in_use typing refl (ground arith) refl

-- The hyphen of a name stands between those of the spaces around it, which the server refuses.
hyphen_slug : auto_slug to_lower_case "Iron - Fit" ≡ "iron---fit"
unfolding auto_slug to_lower_case trim string_eq
hyphen_slug = refl

hyphen_slug_refused : valid_slug "iron---fit" ≡ false
unfolding valid_slug
hyphen_slug_refused = refl
