-- ===== src/Lists/Tests.antt =====
-- A member who is frozen while the page asks whether to cancel them, and the theorem there.
use dopacrm.Base.{refl, true, [], none, some, string_eq}
use dopacrm.Auth.Types.{User, owner, role_eq}
use dopacrm.Auth.Permissions.{feature_eq, can_access}
use dopacrm.Server.Statuses.{MemberStatus}
use dopacrm.Ui.Rows.{ListPage, Rows, put, State}
use dopacrm.Lists.Pages.{cancel}
use dopacrm.Lists.Laws.{member_list, Sees, page_of}

abbrev manager : User
manager = record {
  id = "u1";
  email = "owner@gym";
  first_name = none;
  last_name = none;
  phone = none;
  oauth_provider = none;
  is_active = true;
  role = owner;
  tenant_id = some "t1";
  tenant_features_enabled = [];
}

manager-Sees : Sees manager [] member_list
unfolding can_access feature_eq role_eq dopacrm.Auth.Permissions.is_gated
manager-Sees = refl

abbrev page : ListPage
page = page_of manager [] member_list manager-Sees

abbrev everyone : Rows page
everyone id = some MemberStatus.active

abbrev asking : State page
asking = record { rows = put page "m1" MemberStatus.frozen everyone; confirm = some (cancel, "m1") }
