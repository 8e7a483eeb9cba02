-- ===== src/Leads/Detail.antt =====
-- frontend/src/features/leads/LeadDetailPage.tsx: the buttons of the page, and the requests of its dialogs.
use dopacrm.Base.{Bool, false, not, ◌&&◌, ◌||◌, String, Option, none, some, ◌==◌}
use dopacrm.Auth.Types.{owner, sales, super_admin, role_eq, User}
use dopacrm.Leads.Types.{LeadStatus, contacted, converted, lost, status_eq, Lead, StatusRequest}
use dopacrm.Leads.Kanban.{reason_or_null}

-- `canMutate`
unfoldable pub can_mutate : Option User → Bool
unfolding role_eq
can_mutate none = false
can_mutate (some user) = user.role == owner || user.role == sales || user.role == super_admin

-- `isOpen`
unfoldable pub is_open : LeadStatus → Bool
unfolding status_eq
is_open status = not (status == converted) && not (status == lost)

pub data Button : Type 0 where
  edit convert mark_lost reopen : Button

-- Whether the page shows a button: for a user, while it is being edited or not, and for a lead.
unfoldable pub shows_button : Option User → Bool → Lead → Button → Bool
unfolding can_mutate is_open status_eq
shows_button user editing lead edit =
    can_mutate user && (not editing && not (lead.status == converted))
shows_button user editing lead convert = can_mutate user && is_open lead.status
shows_button user editing lead mark_lost = can_mutate user && is_open lead.status
shows_button user editing lead reopen = can_mutate user && lead.status == lost

-- `handleLost`
abbrev pub handle_lost : Lead → String → StatusRequest
handle_lost lead reason = record {
  id = lead.id;
  new_status = lost;
  lost_reason = reason_or_null reason;
}

-- `handleReopen`
abbrev pub handle_reopen : Lead → StatusRequest
handle_reopen lead = record { id = lead.id; new_status = contacted; lost_reason = none }
