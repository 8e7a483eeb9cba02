-- ===== src/Ui/Rows.antt =====
-- A list page: a table whose rows have a status and a menu, and a dialog that asks before some of the actions. What
-- MemberListPage.tsx, CoachListPage.tsx, ClassListPage.tsx, PlanListPage.tsx and TenantListPage.tsx of
-- frontend/src/features have in common. The list shows the rows as they are on the server, since it is loaded again
-- after each change, and nobody else changes them.
pub mod Laws
use dopacrm.Base.{
  ◌≡◌, Bool, true, false, String, Option, none, some, List, [], ◌∷◌, ℕ, get_elem?, is_some, ◌⊎◌,
  ◌==◌, string_eq, All, if◌then◌else◌,
}
use dopacrm.Ui.Table.{RowAction, visible}

-- What a click on an item of the menu does: go to another page, open the dialog, or send the request.
pub data Click : Type 0 where
  navigates asks sends : Click

-- A list page for one user, with what the server makes of a request, and the two laws that tie them.
pub record ListPage : Type 1 where
  pub Status : Type 0
  pub Action : Type 0
  -- `rowActions`
  pub row_actions : List (RowAction Status Action)
  pub click : Action → Click
  -- the status that the server gives the row, `none` where it refuses
  pub perform : Action → Status → Option Status
  -- The server does what the menu of a row offers.
  pub taken :
      (s : Status)
      → All (λ a. (click a ≡ navigates) ⊎ (is_some (perform a s) ≡ true)) (visible s row_actions)
  -- What the dialog asks about, no other action that is sent prevents.
  pub lasting :
      (a b : Action) (s t : Status)
      → click a ≡ asks
      → click b ≡ sends
      → is_some (perform a s) ≡ true
      → perform b s ≡ some t
      → is_some (perform a t) ≡ true

module _ (page : ListPage) where
  open page use {Status, Action, row_actions, click, perform}

  -- The rows of the server, by id.
  abbrev pub Rows : Type 0
  Rows = String → Option Status

  abbrev pub put : String → Status → Rows → Rows
  put id s rows j = if j == id then some s else rows j

  abbrev pub answered : String → Rows → Option Status → Option Rows
  answered id rows none = none
  answered id rows (some t) = some (put id t rows)

  abbrev pub request_row : Action → String → Rows → Option Status → Option Rows
  request_row a id rows none = none
  request_row a id rows (some s) = answered id rows (perform a s)

  -- The request for an action on a row.
  abbrev pub request : Action → String → Rows → Option Rows
  request a id rows = request_row a id rows (rows id)

  pub record State : Type 0 where
    pub rows : Rows
    -- `confirmCancelFor`, with the action that the dialog confirms
    pub confirm : Option (Action × String)

  -- The request of the dialog takes it away, once the server has done it.
  abbrev pub closes : Click → Option (Action × String) → Option (Action × String)
  closes asks confirm = none
  closes _ confirm = confirm

  -- What the page sends: from the menu of a row, or from the dialog.
  pub data Sends (p : State) : Action → String → Type 0 where
    from_menu :
        {a : Action} {id : String} {s : Status} (i : ℕ)
        → p.rows id ≡ some s
        → get_elem? (visible s row_actions) i ≡ some a
        → click a ≡ sends
        → Sends p a id
    from_dialog : {a : Action} {id : String} → p.confirm ≡ some (a, id) → Sends p a id

  pub data Step : State → State → Type 0 where
    done :
        {p : State} {a : Action} {id : String} {rows : Rows}
        → Sends p a id
        → request a id p.rows ≡ some rows
        → Step p (record { rows = rows; confirm = closes (click a) p.confirm })
    refused :
        {p : State} {a : Action} {id : String}
        → Sends p a id
        → request a id p.rows ≡ none
        → Step p p
    asked :
        {p : State} {a : Action} {id : String} {s : Status} (i : ℕ)
        → p.rows id ≡ some s
        → get_elem? (visible s row_actions) i ≡ some a
        → click a ≡ asks
        → Step p (record p { confirm = some (a, id) })
    closed : {p : State} → Step p (record p { confirm = none })

  pub data Reach : State → Type 0 where
    loaded : {rows : Rows} → Reach (record { rows = rows; confirm = none })
    next : {p q : State} → Reach p → Step p q → Reach q
