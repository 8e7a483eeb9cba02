-- ===== src/CheckIn/Workspace/Laws.antt =====
-- What the check-in page sends, whatever the user does and in which order.
use dopacrm.Base.{
  ◌≡◌, refl, ap, ◌∙◌, Bool, true, false, not, String, Option, none, some, List, [], ◌∷◌, All,
  All-map, Bool-cases, Option-cases, inl, inr, ◌⊎◌, Every, Every-map, Every-at,
}
use mathlib.Core.Path.{subst}
use dopacrm.CheckIn.Quota.{SummaryItem, find_quota_for_class}
use dopacrm.CheckIn.Workspace.{
  GymClass, Workspace, RecordRequest, answer_tap, handle_class_tap, handle_confirm_checkin,
  handle_confirm_override, Event, tapped, confirmed_checkin, confirmed_override, closed_confirm,
  closed_override, selected, typed_reason, handle, Past, Reach, opened, moved, sent,
}

-- Whether a check-in needs an override: the class has no row in the summary, or its row does not allow one.
abbrev pub needs_override : Option SummaryItem → Bool
needs_override none = true
needs_override (some q) = not q.allowed

-- The user has tapped a class with this id, under a summary by which a check-in needs an override or needs none. Any
-- member may then have been on the page.
pub Tapped : String → Bool → Past → Type 0
Tapped class override [] = ⊥
Tapped class override ((_, tapped (some summary) cls) ∷ es) =
    ((cls.id ≡ class) × (needs_override (find_quota_for_class summary cls.id) ≡ override))
    ⊎ Tapped class override es
Tapped class override (_ ∷ es) = Tapped class override es

-- A dialog was confirmed that sends this request: of the member who was then on the page, into a class that was tapped
-- before. The plain dialog sends no override and no reason, and opens where the summary asked for none; the other sends
-- an override with the reason that was typed into it, and opens where the summary asked for one.
pub Checked : Past → RecordRequest → Type 0
Checked [] r = ⊥
Checked ((m, confirmed_checkin) ∷ es) r =
    ((r.member_id ≡ m)
      × (r.override ≡ false)
      × (r.override_reason ≡ none)
      × Tapped r.class_id false es)
    ⊎ Checked es r
Checked ((m, confirmed_override typed) ∷ es) r =
    ((r.member_id ≡ m)
      × (r.override ≡ true)
      × (r.override_reason ≡ typed_reason typed)
      × Tapped r.class_id true es)
    ⊎ Checked es r
Checked (_ ∷ es) r = Checked es r

abbrev IsSound : Past → Workspace → Type 0
IsSound es w =
    Every (λ o. Tapped o.class_id true es) w.override_for
    × Every (λ c. Tapped c.class_id false es) w.confirm_for

Tapped-later :
    (c : String) (o : Bool) (m : String) (e : Event) (es : Past)
    → Tapped c o es
    → Tapped c o ((m, e) ∷ es)
unfolding Tapped
Tapped-later c o m (tapped none cls) es t = t
Tapped-later c o m (tapped (some s) cls) es t = inr t
Tapped-later c o m confirmed_checkin es t = t
Tapped-later c o m (confirmed_override r) es t = t
Tapped-later c o m closed_confirm es t = t
Tapped-later c o m closed_override es t = t
Tapped-later c o m (selected n) es t = t

Checked-later :
    (m : String) (e : Event) (es : Past) (r : RecordRequest)
    → Checked es r
    → Checked ((m, e) ∷ es) r
unfolding Checked
Checked-later m (tapped s cls) es r c = c
Checked-later m confirmed_checkin es r c = inr c
Checked-later m (confirmed_override t) es r c = inr c
Checked-later m closed_confirm es r c = c
Checked-later m closed_override es r c = c
Checked-later m (selected n) es r c = c

IsSound-later :
    (m : String) (e : Event) (es : Past) (w : Workspace) → IsSound es w → IsSound ((m, e) ∷ es) w
IsSound-later m e es w (o, c) = (
  Every-map (λ x t. Tapped-later x.class_id true m e es t) w.override_for o,
  Every-map (λ x t. Tapped-later x.class_id false m e es t) w.confirm_for c,
)

answer_tap-Sound :
    (m : String) (summary : List SummaryItem) (cls : GymClass) (es : Past) (w : Workspace)
    (row : Option SummaryItem)
    → find_quota_for_class summary cls.id ≡ row
    → IsSound ((m, tapped (some summary) cls) ∷ es) w
    → IsSound ((m, tapped (some summary) cls) ∷ es) (answer_tap row cls w)
unfolding Tapped
answer_tap-Sound m summary cls es w none e s = (inl (refl, ap needs_override e), s.1)
answer_tap-Sound m summary cls es w (some q) e s = elim (Bool-cases q.allowed) [
  | inl may ↦ rw may (s.0, inl (refl, ap needs_override e ∙ ap not may))
  | inr may ↦ rw may (inl (refl, ap needs_override e ∙ ap not may), s.1)
]

handle_class_tap-Sound :
    (m : String) (summary : Option (List SummaryItem)) (cls : GymClass) (es : Past) (w : Workspace)
    → IsSound es w
    → IsSound ((m, tapped summary cls) ∷ es) (handle_class_tap summary cls w)
handle_class_tap-Sound m none cls es w s = IsSound-later m (tapped none cls) es w s
handle_class_tap-Sound m (some summary) cls es w s =
    answer_tap-Sound m summary cls es w (find_quota_for_class summary cls.id) refl
      (IsSound-later m (tapped (some summary) cls) es w s)

handle_confirm_checkin-Checked :
    (m : String) (es : Past) (w : Workspace)
    → IsSound es w
    → Every (Checked ((m, confirmed_checkin) ∷ es)) (handle_confirm_checkin m w)
unfolding handle_confirm_checkin Checked
handle_confirm_checkin-Checked m es w s = elim (Option-cases w.confirm_for) [
  | inl e ↦ rw e tt
  | inr (c, e) ↦
      rw e
        (inl (refl, refl, refl, Every-at (λ c. Tapped c.class_id false es) w.confirm_for c e s.1))
]

handle_confirm_override-Checked :
    (m typed : String) (es : Past) (w : Workspace)
    → IsSound es w
    → Every
        (Checked ((m, confirmed_override typed) ∷ es))
        (handle_confirm_override m (typed_reason typed) w)
unfolding handle_confirm_override Checked
handle_confirm_override-Checked m typed es w s = elim (Option-cases w.override_for) [
  | inl e ↦ rw e tt
  | inr (o, e) ↦
      rw e
        (inl (refl, refl, refl, Every-at (λ o. Tapped o.class_id true es) w.override_for o e s.0))
]

handle-Sound :
    (m : String) (e : Event) (es : Past) (w : Workspace)
    → IsSound es w
    → IsSound ((m, e) ∷ es) (handle m e w).0 × Every (Checked ((m, e) ∷ es)) (handle m e w).1
unfolding handle
handle-Sound m (tapped summary cls) es w s = (handle_class_tap-Sound m summary cls es w s, tt)
handle-Sound m confirmed_checkin es w s =
    (IsSound-later m confirmed_checkin es w s, handle_confirm_checkin-Checked m es w s)
handle-Sound m (confirmed_override t) es w s =
    (IsSound-later m (confirmed_override t) es w s, handle_confirm_override-Checked m t es w s)
handle-Sound m closed_confirm es w s = (((IsSound-later m closed_confirm es w s).0, tt), tt)
handle-Sound m closed_override es w s = ((tt, (IsSound-later m closed_override es w s).1), tt)
handle-Sound m (selected n) es w s = (IsSound-later m (selected n) es w s, tt)

Reach-IsSound :
    {m : String} {es : Past} {w : Workspace} {rs : List RecordRequest}
    → Reach m es w rs
    → IsSound es w × All (Checked es) rs
Reach-IsSound (opened m) = ((tt, tt), tt)
Reach-IsSound (moved {m} {es} {w} {v} {rs} run e h) =
    let before = Reach-IsSound run in
    let now =
      subst (λ (v, o). IsSound ((m, e) ∷ es) v × Every (Checked ((m, e) ∷ es)) o) h
        (handle-Sound m e es w before.0) in
    (now.0, All-map (Checked-later m e es) rs before.1)
Reach-IsSound (sent {m} {es} {w} {v} {rs} {r} run e h) =
    let before = Reach-IsSound run in
    let now =
      subst (λ (v, o). IsSound ((m, e) ∷ es) v × Every (Checked ((m, e) ∷ es)) o) h
        (handle-Sound m e es w before.0) in
    (now.0, (now.1, All-map (Checked-later m e es) rs before.1))

-- Whatever the user does, also where another member comes to the page while a dialog is open: each check-in that was
-- sent comes from a dialog that was confirmed, is of the member who was on the page at that moment, and goes into a
-- class that was tapped before, under a summary of whichever member was then on the page. The plain dialog sends no
-- override and no reason, after a tap under a summary with a row for the class that allows it. The other one sends an
-- override with the reason that was typed, after a tap under a summary without such a row.
pub Reach-Checked :
    {m : String} {es : Past} {w : Workspace} {rs : List RecordRequest}
    → Reach m es w rs
    → All (Checked es) rs
Reach-Checked run = (Reach-IsSound run).1
