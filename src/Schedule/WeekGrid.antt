-- ===== src/Schedule/WeekGrid.antt =====
-- The grid of frontend/src/features/schedule/WeekGrid.tsx: which sessions a cell shows, in which order.
pub mod Laws
use dopacrm.Base.{
  Bool, true, false, ◌||◌, String, ◌<>◌, Option, none, some, List, [], ◌∷◌, ◌++◌, ℕ, zero, suc, ◌+◌,
  ltb, leb, decimal, ◌==◌, string_eq, get_or, if◌then◌else◌,
}

-- What `new Date(text)` gives: `getDay()`, `getHours()` and `getTime()`, in the time of the browser.
pub record Moment : Type 0 where
  pub day : ℕ
  pub hour : ℕ
  pub time : ℕ

pub record ClassSession : Type 0 where
  pub id : String
  pub starts_at : Moment

abbrev pub first_hour : ℕ
first_hour = 6

abbrev pub last_hour : ℕ
last_hour = 22

-- `Array.from({ length }, (_, i) => first + i)`
abbrev pub count_from : ℕ → ℕ → List ℕ
count_from first zero = []
count_from first (suc n) = first ∷ count_from (first + 1) n

-- `HOURS`
abbrev pub hours : List ℕ
hours = count_from first_hour 17

-- `Map<string, ClassSession[]>`: what `get` answers for a key.
abbrev pub Cells : Type 0
Cells = String → Option (List ClassSession)

abbrev pub no_cells : Cells
no_cells _ = none

-- `map.set(key, sessions)`
unfoldable pub set_cell : String → List ClassSession → Cells → Cells
unfolding string_eq
set_cell key sessions map k = if key == k then some sessions else map k

-- `${dayIdx}-${hour}`
abbrev pub cell_key : ℕ → ℕ → String
cell_key day hour = decimal day <> "-" <> decimal hour

-- One round of the loop: `arr.push(s)`, or a new array.
unfoldable pub place : ClassSession → Cells → Cells
unfolding set_cell
place s map =
    let key = cell_key s.starts_at.day s.starts_at.hour in
    if ltb s.starts_at.hour first_hour || ltb last_hour s.starts_at.hour
    then map
    else set_cell key (get_or (map key) [] ++ (s ∷ [])) map

unfoldable pub place_all : List ClassSession → Cells → Cells
unfolding place
place_all [] map = map
place_all (s ∷ ss) map = place_all ss (place s map)

abbrev pub insert : ClassSession → List ClassSession → List ClassSession
insert s [] = s ∷ []
insert s (t ∷ ts) =
    let later = insert s ts in
    if leb s.starts_at.time t.starts_at.time then s ∷ t ∷ ts else t ∷ later

-- `arr.sort` by the time of the start, which keeps the order of sessions that start together.
abbrev pub sort : List ClassSession → List ClassSession
sort [] = []
sort (s ∷ ss) = insert s (sort ss)

abbrev pub sort_cell : Option (List ClassSession) → Option (List ClassSession)
sort_cell none = none
sort_cell (some arr) = some (sort arr)

-- `buckets`
unfoldable pub buckets : List ClassSession → Cells
unfolding place_all
buckets sessions key = sort_cell (place_all sessions no_cells key)

-- `buckets.get(key) ?? []`
unfoldable pub cell : List ClassSession → ℕ → ℕ → List ClassSession
unfolding buckets
cell sessions day hour = get_or (buckets sessions (cell_key day hour)) []
