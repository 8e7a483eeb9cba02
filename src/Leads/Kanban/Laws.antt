-- ===== src/Leads/Kanban/Laws.antt =====
-- What the board sends, whatever the user does and in which order.
use dopacrm.Base.{
  Every, Every-map, Every-at, ◌≡◌, refl, sym, ◌∙◌, ◌≢◌, ◌⊎◌, inl, inr, Bool, true, false, not, ◌||◌,
  String, none, some, List, [], ◌∷◌, All, All-map, ◌==◌, ==_iff, ==_ne, Bool-cases, Option-cases,
}
use mathlib.Core.Path.{subst}
use dopacrm.Leads.Types.{LeadStatus, converted, lost, status_eq, Lead, StatusRequest}
use dopacrm.Leads.Kanban.{
  Board, Outcome, drop_lead, handle_drop, confirm_lost, drag_over, drag_leave, Event, drag_started,
  dragged_over, dragged_out, dropped, drag_ended, confirmed, cancelled, settled, handle, Reach,
  opened, moved, sent,
}

-- The user has started to drag this lead.
pub Dragged : Lead → List Event → Type 0
Dragged lead [] = ⊥
Dragged lead (drag_started k ∷ es) = (k ≡ lead) ⊎ Dragged lead es
Dragged lead (_ ∷ es) = Dragged lead es

-- A request of the board: it names a lead that was dragged and a status that the lead does not have, which is
-- never `converted`, and only a lost lead gets a reason.
abbrev pub Asked : List Event → StatusRequest → Type 0
Asked es r =
    (lead : Lead) × Dragged lead es
    × (r.id ≡ lead.id)
    × (lead.status ≢ r.new_status)
    × (r.new_status ≢ converted)
    × ((r.new_status ≡ lost) ⊎ (r.lost_reason ≡ none))

abbrev pub IsSound : List Event → Board → Type 0
IsSound es b =
    Every (λ l. Dragged l es) b.drag_lead
    × Every (λ l. Dragged l es × (l.status ≢ lost)) b.pending_lost

Dragged-later : (l : Lead) (e : Event) (es : List Event) → Dragged l es → Dragged l (e ∷ es)
unfolding Dragged
Dragged-later l (drag_started k) es d = inr d
Dragged-later l (dragged_over _) es d = d
Dragged-later l (dragged_out _) es d = d
Dragged-later l (dropped _) es d = d
Dragged-later l drag_ended es d = d
Dragged-later l (confirmed _) es d = d
Dragged-later l cancelled es d = d
Dragged-later l settled es d = d

IsSound-later : (e : Event) (es : List Event) (b : Board) → IsSound es b → IsSound (e ∷ es) b
IsSound-later e es b (d, p) = (
  Every-map (λ l x. Dragged-later l e es x) b.drag_lead d,
  Every-map (λ l (x, n). (Dragged-later l e es x, n)) b.pending_lost p,
)

abbrev OutcomeSound : List Event → Outcome → Type 0
OutcomeSound es (b, o) = IsSound es b × Every (Asked es) o

drop_lead-Sound :
    (es : List Event) (lead : Lead) (target : LeadStatus) (b : Board)
    → Dragged lead es
    → IsSound es b
    → OutcomeSound es (drop_lead lead target b)
unfolding drop_lead
drop_lead-Sound es lead target b d s = elim (Bool-cases (lead.status == target)) [
  | inl e ↦ rw e (s, tt)
  | inr differ ↦ elim (Bool-cases (target == converted)) [
    | inl e ↦ rw (differ, e) (s, tt)
    | inr fresh ↦ elim (Bool-cases (target == lost)) [
      | inl e ↦
          rw (differ, fresh, e)
            (
              (s.0, (d, λ h. ==_ne lead.status target differ (h ∙ sym ((==_iff target lost).0 e)))),
              tt,
            )
      | inr e ↦
          rw (differ, fresh, e)
            (
              s,
              (
                lead,
                d,
                refl,
                ==_ne lead.status target differ,
                ==_ne target converted fresh,
                inr refl,
              ),
            )
    ]
  ]
]

handle_drop-Sound :
    (can_mutate : Bool) (es : List Event) (target : LeadStatus) (b : Board)
    → IsSound es b
    → OutcomeSound es (handle_drop can_mutate target b)
unfolding handle_drop
handle_drop-Sound can_mutate es target b s = elim (Option-cases b.drag_lead) [
  | inl e ↦ rw e ((tt, s.1), tt)
  | inr (l, e) ↦
      let d : Dragged l es = Every-at (λ k. Dragged k es) b.drag_lead l e s.0 in
      elim (Bool-cases can_mutate) [
        | inl may ↦
            rw (e, may)
              (drop_lead-Sound es l target (record b { drag_lead = some l; hover_column = none }) d
                (d, s.1))
        | inr may ↦ rw (e, may) ((d, s.1), tt)
      ]
]

confirm_lost-Sound :
    (es : List Event) (reason : String) (b : Board)
    → IsSound es b
    → OutcomeSound es (confirm_lost reason b)
unfolding confirm_lost status_eq
confirm_lost-Sound es reason b s = elim (Option-cases b.pending_lost) [
  | inl e ↦ rw e ((s.0, tt), tt)
  | inr (l, e) ↦
      let p : Dragged l es × (l.status ≢ lost) =
        Every-at (λ k. Dragged k es × (k.status ≢ lost)) b.pending_lost l e s.1 in
      rw e ((s.0, p), (l, p.0, refl, p.1, ==_ne lost converted refl, inl refl))
]

drag_over-Sound :
    (can_mutate : Bool) (es : List Event) (column : LeadStatus) (b : Board)
    → IsSound es b
    → IsSound es (drag_over can_mutate column b)
unfolding drag_over
drag_over-Sound can_mutate es column b s =
    elim (Bool-cases (not can_mutate || column == converted)) [ inl e ↦ rw e s | inr e ↦ rw e s ]

drag_leave-Sound :
    (es : List Event) (column : LeadStatus) (b : Board)
    → IsSound es b
    → IsSound es (drag_leave column b)
unfolding drag_leave
drag_leave-Sound es column b s = elim (Option-cases b.hover_column) [
  | inl e ↦ rw e s
  | inr (h, e) ↦ elim (Bool-cases (h == column)) [ inl f ↦ rw (e, f) s | inr f ↦ rw (e, f) s ]
]

handle-Sound :
    (can_mutate : Bool) (e : Event) (es : List Event) (b : Board)
    → IsSound es b
    → OutcomeSound (e ∷ es) (handle can_mutate e b)
unfolding handle Dragged
handle-Sound true (drag_started l) es b s =
    ((inl refl, (IsSound-later (drag_started l) es b s).1), tt)
handle-Sound false (drag_started l) es b s = (IsSound-later (drag_started l) es b s, tt)
handle-Sound c (dragged_over t) es b s =
    (drag_over-Sound c (dragged_over t ∷ es) t b (IsSound-later (dragged_over t) es b s), tt)
handle-Sound c (dragged_out t) es b s =
    (drag_leave-Sound (dragged_out t ∷ es) t b (IsSound-later (dragged_out t) es b s), tt)
handle-Sound c (dropped t) es b s =
    handle_drop-Sound c (dropped t ∷ es) t b (IsSound-later (dropped t) es b s)
handle-Sound c drag_ended es b s = ((tt, (IsSound-later drag_ended es b s).1), tt)
handle-Sound c (confirmed r) es b s =
    confirm_lost-Sound (confirmed r ∷ es) r b (IsSound-later (confirmed r) es b s)
handle-Sound c cancelled es b s = (((IsSound-later cancelled es b s).0, tt), tt)
handle-Sound c settled es b s = (((IsSound-later settled es b s).0, tt), tt)

Asked-later : (e : Event) (es : List Event) (r : StatusRequest) → Asked es r → Asked (e ∷ es) r
Asked-later e es r (l, d, named, differs, not_converted, reason) =
    (l, Dragged-later l e es d, named, differs, not_converted, reason)

Reach-IsSound :
    {can_mutate : Bool} {es : List Event} {b : Board} {rs : List StatusRequest}
    → Reach can_mutate es b rs
    → IsSound es b × All (Asked es) rs
Reach-IsSound opened = ((tt, tt), tt)
Reach-IsSound {can_mutate} (moved {es} {b} {c} {rs} run e h) =
    let before = Reach-IsSound run in
    let now = subst (OutcomeSound (e ∷ es)) h (handle-Sound can_mutate e es b before.0) in
    (now.0, All-map (Asked-later e es) rs before.1)
Reach-IsSound {can_mutate} (sent {es} {b} {c} {rs} {r} run e h) =
    let before = Reach-IsSound run in
    let now = subst (OutcomeSound (e ∷ es)) h (handle-Sound can_mutate e es b before.0) in
    (now.0, (now.1, All-map (Asked-later e es) rs before.1))

-- Whatever happens on the board, each request that it has sent names a lead that was dragged and a status
-- that this lead did not have, never `converted`; only a request for `lost` has a reason.
pub Reach-Asked :
    {can_mutate : Bool} {es : List Event} {b : Board} {rs : List StatusRequest}
    → Reach can_mutate es b rs
    → All (Asked es) rs
Reach-Asked run = (Reach-IsSound run).1
