-- ===== src/Api/Params.antt =====
-- `URLSearchParams`, and its text in the query of a path.
use Prim.Native.Nat.{ℕ, ◌+◌, ◌/◌, ◌%◌}
use Prim.Native.Char.{Char, code}
use dopacrm.Http.Json.{Json, null, str}
use dopacrm.Base.{
  ◌≡◌, refl, Bool, true, false, ◌&&◌, ◌||◌, String, ◌<>◌, Option, none, some, List, [], ◌∷◌, ◌++◌,
  leb, eqb, ltb, ◌==◌, string_eq, decimal, get_or, get_elem?, if◌then◌else◌,
}

abbrev pub Params : Type 0
Params = List (String × String)

-- `params.append(k, v)`
abbrev pub append : String → String → Params → Params
append k v params = params ++ ((k, v) ∷ [])

-- `params.set(k, v)` of a key that is not there yet, as all keys of the source are.
abbrev pub set_new : String → String → Params → Params
set_new k v params = params ++ ((k, v) ∷ [])

-- A text parameter that is left out where it is missing or empty: `if (v) params.set(k, v)`.
abbrev pub set_text : String → Option String → Params → Params
set_text k none params = params
set_text k (some v) params = if v == "" then params else set_new k v params

-- A number that is left out only where it is missing: `if (v !== undefined) params.set(k, String(v))`.
abbrev pub set_number : String → Option ℕ → Params → Params
set_number k none params = params
set_number k (some n) params = set_new k (decimal n) params

-- `if (v) params.set(k, "true")`
abbrev pub set_true : String → Option Bool → Params → Params
set_true k (some true) params = set_new k "true" params
set_true k _ params = params

-- `if (v === false) params.set(k, "false")`
abbrev pub set_false : String → Option Bool → Params → Params
set_false k (some false) params = set_new k "false" params
set_false k _ params = params

abbrev pub append_all : String → List String → Params → Params
append_all k [] params = params
append_all k (v ∷ vs) params = append_all k vs (append k v params)

-- `vs?.forEach((v) => params.append(k, v))`
abbrev pub append_each : String → Option (List String) → Params → Params
append_each k none params = params
append_each k (some vs) params = append_all k vs params

-- The bytes of a code point in UTF-8.
utf8 : ℕ → List ℕ
utf8 n =
    if ltb n 0x80
    then n ∷ []
    else if ltb n 0x800
    then (0xc0 + n / 0x40) ∷ (0x80 + n % 0x40) ∷ []
    else if ltb n 0x10000
    then (0xe0 + n / 0x1000) ∷ (0x80 + n / 0x40 % 0x40) ∷ (0x80 + n % 0x40) ∷ []
    else (0xf0 + n / 0x40000)
      ∷ (0x80 + n / 0x1000 % 0x40)
      ∷ (0x80 + n / 0x40 % 0x40)
      ∷ (0x80 + n % 0x40)
      ∷ []

abbrev hex_digits : List Char
hex_digits =
    "0" ∷ "1" ∷ "2" ∷ "3" ∷ "4" ∷ "5" ∷ "6" ∷ "7" ∷ "8" ∷ "9" ∷ "A" ∷ "B" ∷ "C" ∷ "D" ∷ "E" ∷ "F"
    ∷ []

hex : ℕ → Char
hex d = get_or (get_elem? hex_digits d) "0"

percent : List ℕ → String → String
percent [] rest = rest
percent (b ∷ bs) rest =
    String.◌∷◌ "%" (String.◌∷◌ (hex (b / 16)) (String.◌∷◌ (hex (b % 16)) (percent bs rest)))

-- The characters that `application/x-www-form-urlencoded` keeps.
abbrev pub is_kept : ℕ → Bool
is_kept c =
    leb b'0' c && leb c b'9'
    || leb b'A' c && leb c b'Z'
    || leb b'a' c && leb c b'z'
    || eqb c b'*'
    || eqb c b'-'
    || eqb c b'.'
    || eqb c b'_'

unfoldable pub encode : String → String
unfolding percent utf8 hex
encode String.[] = String.[]
encode (String.◌∷◌ c s) =
    let rest = encode s in
    if is_kept (code c)
    then String.◌∷◌ c rest
    else if eqb (code c) b' '
    then String.◌∷◌ "+" rest
    else percent (utf8 (code c)) rest

pair_text : String × String → String
pair_text (k, v) = encode k <> "=" <> encode v

-- `params.toString()`
unfoldable pub to_string : Params → String
unfolding encode pair_text
to_string [] = ""
to_string (p ∷ []) = pair_text p
to_string (p ∷ q ∷ ps) = pair_text p <> "&" <> to_string (q ∷ ps)

-- `${qs ? `?${qs}` : ""}`
unfoldable pub query : Params → String
unfolding to_string string_eq
query params = let qs = to_string params in if qs == "" then "" else "?" <> qs

query_text :
    query (("search", "a&b =é") ∷ ("limit", "10") ∷ []) ≡ "?search=a%26b+%3D%C3%A9&limit=10"
unfolding query
query_text = refl

-- `/members/${id}/freeze` for the segments `members`, `id` and `freeze`
abbrev pub path : List String → String
path [] = ""
path (s ∷ ss) = "/" <> s <> path ss

-- `v ?? null`
abbrev pub nullable : Option String → Json
nullable none = null
nullable (some v) = str v
