-- ===== src/CheckIn/Scanner.antt =====
-- `QrScannerPanel` of frontend/src/features/attendance/QrScannerPanel.tsx: which member a scanned text names. The
-- camera and the library that reads the code are left out; a scan is the text that it gives. `MemberQrButton` prints
-- the id of the member as it is.
pub mod Laws
pub mod Links
use Prim.Native.Char.{code}
use Prim.Native.String
use mathlib.Core.Option.{map as option_map}
use dopacrm.Base.{
  Bool, true, false, ◌&&◌, ◌||◌, String, Option, none, some, List, [], ◌∷◌, ◌++◌, ℕ, zero, suc, leb,
  eqb, ◌==◌, string_eq, if◌then◌else◌,
}
use dopacrm.Base.Scan.{trim}

-- One place of the pattern: `[0-9a-f]` in either case, or `-`.
pub data Slot : Type 0 where
  hex hyphen : Slot

abbrev pub takes : Slot → ℕ → Bool
takes hex n = leb 48 n && leb n 57 || leb 97 n && leb n 102 || leb 65 n && leb n 70
takes hyphen n = eqb n 45

abbrev hexes : ℕ → List Slot
hexes zero = []
hexes (suc n) = hex ∷ hexes n

-- `UUID_REGEX`, without its ends
abbrev pub uuid_slots : List Slot
uuid_slots =
    hexes 8 ++ hyphen ∷ hexes 4 ++ hyphen ∷ hexes 4 ++ hyphen ∷ hexes 4 ++ hyphen ∷ hexes 12

-- The text at the front that the pattern matches.
pub match_front : List Slot → String → Option String
match_front [] s = some ""
match_front (k ∷ ks) String.[] = none
match_front (k ∷ ks) (String.◌∷◌ c s) =
    let rest = match_front ks s in if takes k (code c) then option_map (String.◌∷◌ c) rest else none

-- The whole text matches: `^…$`.
pub match_all : List Slot → String → Bool
match_all [] String.[] = true
match_all [] (String.◌∷◌ c s) = false
match_all (k ∷ ks) String.[] = false
match_all (k ∷ ks) (String.◌∷◌ c s) = takes k (code c) && match_all ks s

unfoldable pub is_uuid : String → Bool
unfolding match_all
is_uuid text = match_all uuid_slots text

abbrev pub or_else : Option String → Option String → Option String
or_else none o = o
or_else (some s) o = some s

-- `extractMemberIdFromUrl`: the first match in the text.
unfoldable pub extract_member_id_from_url : String → Option String
unfolding match_front
extract_member_id_from_url String.[] = match_front uuid_slots ""
extract_member_id_from_url (String.◌∷◌ c s) =
    or_else (match_front uuid_slots (String.◌∷◌ c s)) (extract_member_id_from_url s)

-- The member that a scan hands to `onDecode`, if it does.
unfoldable pub decoded : String → Option String
unfolding is_uuid extract_member_id_from_url
decoded scan =
    let text = trim scan in if is_uuid text then some text else extract_member_id_from_url text

-- `setError` of a camera that does not start.
pub data CameraError : Type 0 where
  access_denied no_camera : CameraError
  other_error : String → CameraError

unfoldable pub camera_error : String → String → CameraError
unfolding string_eq
camera_error name message =
    if name == "NotAllowedError"
    then access_denied
    else if name == "NotFoundError"
    then no_camera
    else other_error message
