-- ===== src/CheckIn/Workspace.antt =====
-- `ActiveMemberWorkspace` of the check-in page: its two dialogs and what they send.
pub mod Laws
use dopacrm.Base.{
  ◌≡◌, Bool, true, false, not, String, Option, none, some, List, [], ◌∷◌, get_or, if◌then◌else◌,
}
use dopacrm.Base.Scan.{trim, or_null}
use dopacrm.CheckIn.Quota.{
  SummaryItem, find_quota_for_class, QuotaLabel, format_remaining_after_checkin,
}

pub record GymClass : Type 0 where
  pub id : String
  pub name : String

pub record OverrideFor : Type 0 where
  pub class_id : String
  pub class_name : String
  pub kind : String

pub record ConfirmFor : Type 0 where
  pub class_id : String
  pub class_name : String
  pub quota_label : QuotaLabel

pub record Workspace : Type 0 where
  pub override_for : Option OverrideFor
  pub confirm_for : Option ConfirmFor

abbrev pub initial : Workspace
initial = record { override_for = none; confirm_for = none }

-- `RecordEntryRequest`
pub record RecordRequest : Type 0 where
  pub member_id : String
  pub class_id : String
  pub override : Bool
  pub override_reason : Option String

abbrev pub ask_override : GymClass → String → Workspace → Workspace
ask_override cls kind w = record w {
  override_for = some (record { class_id = cls.id; class_name = cls.name; kind = kind });
}

abbrev pub ask_confirm : GymClass → SummaryItem → Workspace → Workspace
ask_confirm cls q w = record w {
  confirm_for = some (record {
    class_id = cls.id;
    class_name = cls.name;
    quota_label = format_remaining_after_checkin q;
  });
}

-- `handleClassTap`, for the row of the class in the summary.
abbrev pub answer_tap : Option SummaryItem → GymClass → Workspace → Workspace
answer_tap none cls w = ask_override cls "not_covered" w
answer_tap (some q) cls w =
    if not q.allowed
    then ask_override cls (get_or q.reason "quota_exceeded") w
    else ask_confirm cls q w

-- `handleClassTap`; the summary is `none` until it has come.
abbrev pub handle_class_tap : Option (List SummaryItem) → GymClass → Workspace → Workspace
handle_class_tap none cls w = w
handle_class_tap (some summary) cls w = answer_tap (find_quota_for_class summary cls.id) cls w

unfoldable pub handle_confirm_checkin : String → Workspace → Option RecordRequest
handle_confirm_checkin member w = elim w.confirm_for [
  | none ↦ none
  | some c ↦ some (record {
    member_id = member;
    class_id = c.class_id;
    override = false;
    override_reason = none;
  })
]

unfoldable pub handle_confirm_override : String → Option String → Workspace → Option RecordRequest
handle_confirm_override member reason w = elim w.override_for [
  | none ↦ none
  | some o ↦ some (record {
    member_id = member;
    class_id = o.class_id;
    override = true;
    override_reason = reason;
  })
]

-- `handleSubmit` of the dialog for an override: `reason.trim() || null`
unfoldable pub typed_reason : String → Option String
unfolding trim or_null
typed_reason reason = or_null (trim reason)

-- What happens in the workspace: a tap on a class, under the summary of that moment; an answer to a dialog; the success
-- of what a dialog sent, which closes it; another member, by a scan, for whom the page keeps the component, and so its
-- state, since it gives it no `key`.
pub data Event : Type 0 where
  tapped : Option (List SummaryItem) → GymClass → Event
  confirmed_checkin : Event
  confirmed_override : String → Event
  closed_confirm : Event
  closed_override : Event
  selected : String → Event

unfoldable pub handle : String → Event → Workspace → Workspace × Option RecordRequest
unfolding handle_confirm_checkin handle_confirm_override typed_reason
handle member (tapped summary cls) w = (handle_class_tap summary cls w, none)
handle member confirmed_checkin w = (w, handle_confirm_checkin member w)
handle member (confirmed_override typed) w =
    (w, handle_confirm_override member (typed_reason typed) w)
handle member closed_confirm w = (record w { confirm_for = none }, none)
handle member closed_override w = (record w { override_for = none }, none)
handle member (selected other) w = (w, none)

-- The member on the page after the event.
abbrev pub member_after : Event → String → String
member_after (selected other) member = other
member_after _ member = member

-- What has happened so far, latest first, each with the member that was then on the page.
abbrev pub Past : Type 0
Past = List (String × Event)

-- Everything that can happen: the member on the page, the past, the workspace, and the requests sent. Without a member
-- the page drops the workspace, which then begins anew.
pub data Reach : String → Past → Workspace → List RecordRequest → Type 0 where
  opened : (member : String) → Reach member [] initial []
  moved :
      {m : String} {es : Past} {w v : Workspace} {rs : List RecordRequest}
      → Reach m es w rs
      → (e : Event) → handle m e w ≡ (v, none)
      → Reach (member_after e m) ((m, e) ∷ es) v rs
  sent :
      {m : String} {es : Past} {w v : Workspace} {rs : List RecordRequest} {r : RecordRequest}
      → Reach m es w rs
      → (e : Event) → handle m e w ≡ (v, some r)
      → Reach (member_after e m) ((m, e) ∷ es) v (r ∷ rs)
