-- ===== src/Leads/Kanban/ReadOnly.antt =====
-- The board of a user who may not change leads.
use dopacrm.Base.{
  ◌≡◌, refl, sym, ap, ◌∙◌, inl, inr, false, none, List, [], ◌==◌, Bool-cases, Option-cases,
}
use mathlib.Core.Path.{subst}
use mathlib.Core.Option.{some-ne-none}
use dopacrm.Leads.Types.{LeadStatus, status_eq, StatusRequest}
use dopacrm.Leads.Kanban.{
  Board, handle_drop, confirm_lost, drag_over, drag_leave, Event, drag_started, dragged_over,
  dragged_out, dropped, drag_ended, confirmed, cancelled, settled, handle, Reach, opened, moved,
  sent,
}

-- A board without a drag and without an open dialog.
abbrev IsIdle : Board → Type 0
IsIdle b = (b.drag_lead ≡ none) × (b.pending_lost ≡ none)

drag_over-Idle : (t : LeadStatus) (b : Board) → IsIdle b → IsIdle (drag_over false t b)
unfolding drag_over
drag_over-Idle t b h = h

drag_leave-Idle : (t : LeadStatus) (b : Board) → IsIdle b → IsIdle (drag_leave t b)
unfolding drag_leave
drag_leave-Idle t b h = elim (Option-cases b.hover_column) [
  | inl e ↦ rw e h
  | inr (c, e) ↦ elim (Bool-cases (c == t)) [ inl f ↦ rw (e, f) h | inr f ↦ rw (e, f) h ]
]

handle-Idle :
    (e : Event) (b : Board) → IsIdle b → IsIdle (handle false e b).0 × ((handle false e b).1 ≡ none)
unfolding handle handle_drop confirm_lost
handle-Idle (drag_started l) b h = (h, refl)
handle-Idle (dragged_over t) b h = (drag_over-Idle t b h, refl)
handle-Idle (dragged_out t) b h = (drag_leave-Idle t b h, refl)
handle-Idle (dropped t) b h = rw (h.0) ((refl, h.1), refl)
handle-Idle drag_ended b h = ((refl, h.1), refl)
handle-Idle (confirmed r) b h = rw (h.1) ((h.0, refl), refl)
handle-Idle cancelled b h = ((h.0, refl), refl)
handle-Idle settled b h = ((h.0, refl), refl)

Reach-IsIdle :
    {es : List Event} {b : Board} {rs : List StatusRequest}
    → Reach false es b rs
    → IsIdle b × (rs ≡ [])
Reach-IsIdle opened = ((refl, refl), refl)
Reach-IsIdle (moved {es} {b} {c} {rs} run e h) =
    let before = Reach-IsIdle run in
    (subst IsIdle (ap (λ o. o.0) h) (handle-Idle e b before.0).0, before.1)
Reach-IsIdle (sent {es} {b} {c} {rs} {r} run e h) =
    let before = Reach-IsIdle run in
    absurd (some-ne-none r (sym (ap (λ o. o.1) h) ∙ (handle-Idle e b before.0).1))

-- The board of a user who may not change leads sends nothing, whatever happens on it.
pub Reach-silent :
    {es : List Event} {b : Board} {rs : List StatusRequest} → Reach false es b rs → rs ≡ []
Reach-silent run = (Reach-IsIdle run).1
