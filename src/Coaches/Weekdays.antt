-- ===== src/Coaches/Weekdays.antt =====
-- WeekdaysPicker.tsx of frontend/src/features/coaches, the buttons for the days of the week, and what the schemas
-- of backend/app/api/v1 want of a list of days.
pub mod Laws
use dopacrm.Base.{
  ◌≡◌, Bool, true, false, not, ◌&&◌, String, Option, none, some, List, [], ◌∷◌, ◌++◌, ℕ, filter,
  includes, all, length, ◌==◌, string_eq, eqb, if◌then◌else◌,
}

-- `WEEKDAYS`, of the client and of the server
abbrev pub weekdays_codes : List String
weekdays_codes = "sun" ∷ "mon" ∷ "tue" ∷ "wed" ∷ "thu" ∷ "fri" ∷ "sat" ∷ []

-- `toggle`: the days after a click on the button of one.
unfoldable pub toggle : Bool → String → List String → List String
unfolding string_eq
toggle disabled code value =
    if disabled
    then value
    else if includes value code
    then filter (λ w. not (w == code)) value
    else value ++ (code ∷ [])

-- `len(set(v)) == len(v)`
abbrev pub all_different : List String → Bool
unfolding string_eq
all_different [] = true
all_different (w ∷ ws) = not (includes ws w) && all_different ws

-- `_valid_weekdays`
unfoldable pub valid_weekdays : List String → Bool
unfolding string_eq all_different
valid_weekdays v = all (λ w. includes weekdays_codes w) v && all_different v
