-- ===== src/Schedule/WeekGrid/Laws.antt =====
-- What a cell of the grid shows.
use mathlib.Core.List.{append-nil, append_assoc}
use dopacrm.Base.{
  ◌≡◌, refl, sym, ap, ◌∙◌, ◌≢◌, Bool, true, false, ◌&&◌, ◌||◌, String, ◌<>◌, Option, none, some,
  List, [], ◌∷◌, ◌++◌, ℕ, ◌≤◌, ltb, leb, eqb, decimal, ◌==◌, ==_iff, string_eq, get_or, filter,
  Bool-cases, inl, inr, arith, if◌then◌else◌,
}
use dopacrm.Base.Text.{split, split_from-append, split_from-sep, split_from-last}
use dopacrm.Base.Decimal.Laws.{decimal-Lacks, decimal-injective}
use text.Mathlib.TextLemmas.{nil-append, cons-append}
use dopacrm.Schedule.WeekGrid.{
  ClassSession, first_hour, last_hour, Cells, no_cells, set_cell, cell_key, place, place_all,
  insert, sort, sort_cell, buckets, cell,
}

split-cell_key : (d h : ℕ) → split b'-' (cell_key d h) ≡ decimal d ∷ decimal h ∷ []
unfolding split
split-cell_key d h =
    split_from-append b'-' "" (decimal d) ("-" <> decimal h) (decimal-Lacks d)
    ∙ rw (nil-append, cons-append, nil-append)
        (split_from-sep b'-' (decimal d) "-" (decimal h) refl
          ∙ ap (λ r. decimal d ∷ r)
              (split_from-last b'-' "" (decimal h) (decimal-Lacks h) ∙ rw nil-append))

heads : List String → String × String
heads (a ∷ b ∷ _) = (a, b)
heads _ = ("", "")

-- The key of a cell tells its day and its hour.
cell_key-injective : (d h e i : ℕ) → cell_key d h ≡ cell_key e i → (d ≡ e) × (h ≡ i)
unfolding heads
cell_key-injective d h e i same =
    let both : heads (decimal d ∷ decimal h ∷ []) ≡ heads (decimal e ∷ decimal i ∷ []) =
      ap heads (sym (split-cell_key d h) ∙ ap (split b'-') same ∙ split-cell_key e i) in
    (decimal-injective d e (ap (λ p. p.0) both), decimal-injective h i (ap (λ p. p.1) both))

-- The session starts on this day, in this hour.
abbrev pub starts_in : ℕ → ℕ → ClassSession → Bool
starts_in day hour s = eqb s.starts_at.day day && eqb s.starts_at.hour hour

abbrev at_cell : Cells → ℕ → ℕ → List ClassSession
at_cell map d h = get_or (map (cell_key d h)) []

set_cell-same :
    (j k : String) (v : List ClassSession) (map : Cells) → j ≡ k → set_cell j v map k ≡ some v
unfolding set_cell
set_cell-same j k v map e = rw ((==_iff j k).1 e) refl

set_cell-other :
    (j k : String) (v : List ClassSession) (map : Cells) → j ≢ k → set_cell j v map k ≡ map k
unfolding set_cell
set_cell-other j k v map n = elim (Bool-cases (j == k)) [
  | inl e ↦ absurd (n ((==_iff j k).0 e))
  | inr e ↦ rw e refl
]

place-at_cell :
    (s : ClassSession) (map : Cells) (d h : ℕ)
    → first_hour ≤ h
    → h ≤ last_hour
    → at_cell (place s map) d h ≡ at_cell map d h ++ (if starts_in d h s then s ∷ [] else [])
unfolding place
place-at_cell s map d h low high = elim (Bool-cases (starts_in d h s)) [
  | inl here ↦
      let same_day : s.starts_at.day ≡ d = ground arith in
      let same_hour : s.starts_at.hour ≡ h = ground arith in
      let inside : (ltb s.starts_at.hour first_hour || ltb last_hour s.starts_at.hour) ≡ false =
        ground arith in
      let same : cell_key s.starts_at.day s.starts_at.hour ≡ cell_key d h =
        ap (λ e. cell_key e s.starts_at.hour) same_day ∙ ap (cell_key d) same_hour in
      rw (here, inside)
        (ap (λ o. get_or o []) (set_cell-same _ _ _ map same)
          ∙ ap (λ k. get_or (map k) [] ++ (s ∷ [])) same)
  | inr elsewhere ↦
      rw elsewhere
        (elim (Bool-cases (ltb s.starts_at.hour first_hour || ltb last_hour s.starts_at.hour)) [
          | inl outside ↦ rw outside (sym (append-nil (at_cell map d h)))
          | inr inside ↦
              let differ : cell_key s.starts_at.day s.starts_at.hour ≢ cell_key d h =
                λ e. ground (arith, cell_key-injective s.starts_at.day s.starts_at.hour d h e) in
              rw inside (
                ap (λ o. get_or o []) (set_cell-other _ _ _ map differ)
                ∙ sym (append-nil (at_cell map d h)))
        ])
]

if-filter :
    (s : ClassSession) (ss : List ClassSession) (d h : ℕ)
    → (if starts_in d h s then s ∷ [] else []) ++ filter (starts_in d h) ss
      ≡ filter (starts_in d h) (s ∷ ss)
if-filter s ss d h = elim (Bool-cases (starts_in d h s)) [ inl e ↦ rw e refl | inr e ↦ rw e refl ]

place_all-at_cell :
    (ss : List ClassSession) (map : Cells) (d h : ℕ)
    → first_hour ≤ h
    → h ≤ last_hour
    → at_cell (place_all ss map) d h ≡ at_cell map d h ++ filter (starts_in d h) ss
unfolding place_all
place_all-at_cell [] map d h low high = sym (append-nil (at_cell map d h))
place_all-at_cell (s ∷ ss) map d h low high =
    place_all-at_cell ss (place s map) d h low high
    ∙ ap (λ r. r ++ filter (starts_in d h) ss) (place-at_cell s map d h low high)
    ∙ append_assoc (at_cell map d h) (if starts_in d h s then s ∷ [] else [])
        (filter (starts_in d h) ss)
    ∙ ap (λ r. at_cell map d h ++ r) (if-filter s ss d h)

get_or-sort_cell : (o : Option (List ClassSession)) → get_or (sort_cell o) [] ≡ sort (get_or o [])
get_or-sort_cell none = refl
get_or-sort_cell (some arr) = refl

-- A cell of the rows from 6 to 22 shows exactly the sessions that start on its day and in its hour, in the
-- order of their starts.
pub cell-sort :
    (sessions : List ClassSession) (day hour : ℕ)
    → first_hour ≤ hour
    → hour ≤ last_hour
    → cell sessions day hour ≡ sort (filter (starts_in day hour) sessions)
unfolding cell buckets
cell-sort sessions day hour low high =
    get_or-sort_cell (place_all sessions no_cells (cell_key day hour))
    ∙ ap sort (place_all-at_cell sessions no_cells day hour low high)

-- The rows of the grid do not reach the session.
abbrev pub is_outside : ClassSession → Bool
is_outside s = ltb s.starts_at.hour first_hour || ltb last_hour s.starts_at.hour

-- A session that starts before 6 or after 22:59 makes no difference to any cell: the grid does not show it,
-- clamped to a row or otherwise.
pub cell-outside :
    (s : ClassSession) (sessions : List ClassSession) (day hour : ℕ)
    → is_outside s ≡ true
    → cell (s ∷ sessions) day hour ≡ cell sessions day hour
unfolding cell buckets place_all place
cell-outside s sessions day hour out = rw out refl

-- The starts follow each other.
abbrev pub IsSorted : List ClassSession → Type 0
IsSorted [] = Unit
IsSorted (s ∷ []) = Unit
IsSorted (s ∷ t ∷ ts) = (s.starts_at.time ≤ t.starts_at.time) × IsSorted (t ∷ ts)

insert-IsSorted : (s : ClassSession) (ts : List ClassSession) → IsSorted ts → IsSorted (insert s ts)
insert-IsSorted s [] h = tt
insert-IsSorted s (t ∷ []) h = elim (Bool-cases (leb s.starts_at.time t.starts_at.time)) [
  | inl e ↦ rw e (ground arith, tt)
  | inr e ↦ rw e (ground arith, tt)
]
insert-IsSorted s (t ∷ u ∷ us) (p, h) = elim (Bool-cases (leb s.starts_at.time t.starts_at.time)) [
  | inl e ↦ rw e (ground arith, (p, h))
  | inr e ↦ elim (Bool-cases (leb s.starts_at.time u.starts_at.time)) [
    | inl f ↦ rw (e, f) (ground arith, (ground arith, h))
    | inr f ↦ rw (e, f) (p, (rw f at (insert-IsSorted s (u ∷ us) h)))
  ]
]

sort-IsSorted : (ss : List ClassSession) → IsSorted (sort ss)
sort-IsSorted [] = tt
sort-IsSorted (s ∷ ss) = insert-IsSorted s (sort ss) (sort-IsSorted ss)

-- In every cell the sessions stand in the order of their starts.
pub cell-IsSorted :
    (sessions : List ClassSession) (day hour : ℕ)
    → first_hour ≤ hour
    → hour ≤ last_hour
    → IsSorted (cell sessions day hour)
cell-IsSorted sessions day hour low high =
    rw (cell-sort sessions day hour low high) (sort-IsSorted (filter (starts_in day hour) sessions))
