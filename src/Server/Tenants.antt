-- ===== src/Server/Tenants.antt =====
-- What the server wants of the name and the slug of a new gym: `CreateTenantRequest` of
-- backend/app/api/v1/tenants/schemas.py, and `create_tenant` of backend/app/services/tenant_service.py.
use Prim.Native.Char.{code}
use dopacrm.Base.{
  Bool, true, false, not, ◌&&◌, ◌||◌, String, ℕ, leb, eqb, Option, none, some, List, includes,
  string_eq, if◌then◌else◌,
}
use dopacrm.Base.Scan.{size}

-- `[a-z0-9]`
abbrev pub is_slug_char : ℕ → Bool
is_slug_char n = leb 97 n && leb n 122 || leb 48 n && leb n 57

-- `[a-z0-9]+(-[a-z0-9]+)*`, from its start, or behind a letter or digit of it
abbrev pub matches_slug : Bool → String → Bool
matches_slug behind String.[] = behind
matches_slug behind (String.◌∷◌ c s) =
    is_slug_char (code c) && matches_slug true s
    || behind && eqb (code c) 45 && matches_slug false s

-- `min_length`, `max_length` and `validate_slug`
unfoldable pub valid_slug : String → Bool
valid_slug slug = leb 2 (size slug) && leb (size slug) 64 && matches_slug false slug

-- A 422 for the slug, or `TENANT_SLUG_TAKEN`.
pub data SlugError : Type 0 where
  slug_unprocessable slug_taken : SlugError

-- Whether `create_tenant` refuses the slug, with the slugs of the other gyms.
unfoldable pub slug_error : List String → String → Option SlugError
unfolding valid_slug string_eq
slug_error others slug =
    if not (valid_slug slug)
    then some slug_unprocessable
    else if includes others slug
    then some slug_taken
    else none
