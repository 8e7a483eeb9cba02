-- ===== src/Leads/Kanban.antt =====
-- frontend/src/features/leads/KanbanBoard.tsx: the columns, and the board as a machine that takes events and
-- sends requests.
pub mod Laws
pub mod ReadOnly
pub mod Columns
use dopacrm.Base.{
  ◌≡◌, Bool, true, false, not, ◌||◌, String, Option, none, some, List, [], ◌∷◌, ◌++◌, ◌==◌,
  string_eq, if◌then◌else◌,
}
use dopacrm.Leads.Types.{
  LeadStatus, new, contacted, trial, converted, lost, status_eq, Lead, StatusRequest,
}

-- `COLUMNS`
abbrev pub columns : List LeadStatus
columns = new ∷ contacted ∷ trial ∷ converted ∷ lost ∷ []

-- `map` of `useMemo`: a list for each status.
abbrev pub Buckets : Type 0
Buckets = LeadStatus → List Lead

abbrev pub no_leads : Buckets
no_leads _ = []

-- `map[lead.status].push(lead)`
abbrev pub push : Lead → Buckets → Buckets
push lead map status = if lead.status == status then map status ++ (lead ∷ []) else map status

-- `for (const lead of leads)`
abbrev pub push_all : List Lead → Buckets → Buckets
push_all [] map = map
push_all (lead ∷ leads) map = push_all leads (push lead map)

abbrev pub buckets : List Lead → Buckets
buckets leads = push_all leads no_leads

pub record Board : Type 0 where
  pub drag_lead : Option Lead
  pub hover_column : Option LeadStatus
  pub pending_lost : Option Lead

abbrev pub initial : Board
initial = record { drag_lead = none; hover_column = none; pending_lost = none }

-- What a handler leaves: the board, and the variables of `setStatus.mutate` where it calls that.
abbrev pub Outcome : Type 0
Outcome = Board × Option StatusRequest

-- `reason || null`
abbrev pub reason_or_null : String → Option String
reason_or_null reason = if reason == "" then none else some reason

-- `handleDrop`, where a lead is dragged and the user may change leads.
unfoldable pub drop_lead : Lead → LeadStatus → Board → Outcome
drop_lead lead target board =
    if lead.status == target
    then (board, none)
    else if target == converted
    then (board, none)
    else if target == lost
    then (record board { pending_lost = some lead }, none)
    else (board, some (record { id = lead.id; new_status = target; lost_reason = none }))

unfoldable pub handle_drop : Bool → LeadStatus → Board → Outcome
unfolding drop_lead
handle_drop can_mutate target board =
    let left = record board { hover_column = none } in
    elim board.drag_lead [
      | none ↦ (left, none)
      | some lead ↦ if not can_mutate then (left, none) else drop_lead lead target left
    ]

unfoldable pub confirm_lost : String → Board → Outcome
unfolding string_eq
confirm_lost reason board = elim board.pending_lost [
  | none ↦ (board, none)
  | some lead ↦ (
    board,
    some (record { id = lead.id; new_status = lost; lost_reason = reason_or_null reason }),
  )
]

-- `onDragOver` of a column
unfoldable pub drag_over : Bool → LeadStatus → Board → Board
drag_over can_mutate column board =
    if not can_mutate || column == converted
    then board
    else record board { hover_column = some column }

-- `onDragLeave` of a column
unfoldable pub drag_leave : LeadStatus → Board → Board
drag_leave column board = elim board.hover_column [
  | none ↦ board
  | some hover ↦ if hover == column then record board { hover_column = none } else board
]

-- What happens to the board: the user drags a card, over a column, out of it, onto it, lets go, confirms or
-- cancels the dialog, and a request for `lost` comes back.
pub data Event : Type 0 where
  drag_started : Lead → Event
  dragged_over : LeadStatus → Event
  dragged_out : LeadStatus → Event
  dropped : LeadStatus → Event
  drag_ended : Event
  confirmed : String → Event
  cancelled : Event
  settled : Event

-- A card can be dragged only where `draggable` holds.
unfoldable pub handle : Bool → Event → Board → Outcome
unfolding handle_drop confirm_lost drag_over drag_leave
handle can_mutate (drag_started lead) board =
    (if can_mutate then record board { drag_lead = some lead } else board, none)
handle can_mutate (dragged_over column) board = (drag_over can_mutate column board, none)
handle can_mutate (dragged_out column) board = (drag_leave column board, none)
handle can_mutate (dropped column) board = handle_drop can_mutate column board
handle can_mutate drag_ended board = (record board { drag_lead = none; hover_column = none }, none)
handle can_mutate (confirmed reason) board = confirm_lost reason board
handle can_mutate cancelled board = (record board { pending_lost = none }, none)
handle can_mutate settled board = (record board { pending_lost = none }, none)

-- Everything that can happen, from a board without a drag: the events so far, the board, and the requests sent.
pub data Reach (can_mutate : Bool) : List Event → Board → List StatusRequest → Type 0 where
  opened : Reach can_mutate [] initial []
  moved :
      {es : List Event} {b c : Board} {rs : List StatusRequest}
      → Reach can_mutate es b rs
      → (e : Event) → handle can_mutate e b ≡ (c, none)
      → Reach can_mutate (e ∷ es) c rs
  sent :
      {es : List Event} {b c : Board} {rs : List StatusRequest} {r : StatusRequest}
      → Reach can_mutate es b rs
      → (e : Event) → handle can_mutate e b ≡ (c, some r)
      → Reach can_mutate (e ∷ es) c (r ∷ rs)
