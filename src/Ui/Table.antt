-- ===== src/Ui/Table.antt =====
-- frontend/src/components/ui/data-table.tsx: what the table of a list page shows, on a wide screen and as cards on a
-- phone, and the menu of a row. A cell is the text that it renders.
pub mod Laws
use mathlib.Core.Option
use dopacrm.Base.{
  Bool, not, ◌||◌, String, Option, none, some, List, [], ◌∷◌, ℕ, suc, filter, map, eqb, get_or,
  if◌then◌else◌,
}

-- `Column<T>`
pub record Column (T : Type 0) : Type 0 where
  pub header : String
  pub cell : T → String
  pub primary_mobile : Bool
  pub hide_on_mobile : Bool

-- `RowAction<T>`; `act` is what its `onClick` does.
pub record RowAction (T A : Type 0) : Type 0 where
  pub act : A
  pub hidden : T → Bool

module _ {T : Type 0} where
  -- `columns.findIndex((c) => c.primaryMobile)`, `none` for -1
  abbrev pub find_primary : List (Column T) → Option ℕ
  find_primary [] = none
  find_primary (c ∷ cs) =
      let rest = find_primary cs in if c.primary_mobile then some 0 else Option.map suc rest

  -- `primaryIdx === -1 ? 0 : primaryIdx`
  abbrev pub primary_index : List (Column T) → ℕ
  primary_index columns = get_or (find_primary columns) 0

  -- `rest`, from the column with the index `i` on
  abbrev pub rest_from : ℕ → ℕ → List (Column T) → List (Column T)
  rest_from i primary [] = []
  rest_from i primary (c ∷ cs) =
      let rest = rest_from (suc i) primary cs in
      if eqb i primary || c.hide_on_mobile then rest else c ∷ rest

  abbrev pub nth : List (Column T) → ℕ → Option (Column T)
  nth [] i = none
  nth (c ∷ cs) ℕ.zero = some c
  nth (c ∷ cs) (suc i) = nth cs i

  -- The columns of a card: its title, if there is one, and the others.
  abbrev pub card_columns : List (Column T) → Option (Column T) × List (Column T)
  card_columns columns =
      let primary = primary_index columns in (nth columns primary, rest_from 0 primary columns)

module _ {T A : Type 0} where
  -- `visible` of `ActionsMenu`
  abbrev pub visible : T → List (RowAction T A) → List A
  visible row actions = map (λ a. a.act) (filter (λ a. not (a.hidden row)) actions)
