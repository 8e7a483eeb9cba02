-- ===== src/Lists/Laws.antt =====
-- The five list pages behind their guards: on each of them the server does what the page sends.
use dopacrm.Base.{◌≡◌, refl, Bool, true, some, includes, arith, ◌==◌}
use dopacrm.Auth.Types.{Role, User, super_admin, owner, staff, sales, coach, role_eq}
use dopacrm.Auth.Permissions.{
  Feature, members, coaches, classes, plans, tenants, TenantFeatures, empty_overrides, can_access,
  baseline, feature_eq,
}
use dopacrm.Server.Statuses.{MemberStatus, CoachStatus, TenantStatus, is_super_admin}
use dopacrm.Ui.Rows.{ListPage}
use dopacrm.Lists.Pages.{
  Action, click, member_actions, coach_actions, catalogue_actions, tenant_actions, perform_member,
  perform_coach, perform_catalogue, perform_tenant,
}
use dopacrm.Lists.Menus.{
  lasts, member-taken, member-lasts, coach-taken, coach-lasts, catalogue-taken, catalogue-lasts,
  tenant-taken, tenant-lasts,
}

pub data Kind : Type 0 where
  member_list coach_list class_list plan_list tenant_list : Kind

-- The feature that App.tsx requires for the page.
abbrev pub feature : Kind → Feature
feature member_list = members
feature coach_list = coaches
feature class_list = classes
feature plan_list = plans
feature tenant_list = tenants

-- The guard of the page, as RequireFeature asks it.
abbrev pub Sees : User → TenantFeatures → Kind → Type 0
Sees user flags kind = can_access (some user) (feature kind) empty_overrides flags ≡ true

baseline-tenants :
    (role : Role) → includes (baseline role) tenants ≡ true → (role == super_admin) ≡ true
unfolding role_eq feature_eq
baseline-tenants super_admin h = refl
baseline-tenants owner h = h
baseline-tenants staff h = h
baseline-tenants sales h = h
baseline-tenants coach h = h

pub tenants_seen :
    (user : User) (flags : TenantFeatures)
    → Sees user flags tenant_list
    → is_super_admin user ≡ true
unfolding can_access is_super_admin
tenants_seen user flags h = ground (arith, baseline-tenants user.role)

abbrev pub page_of :
    (user : User) (flags : TenantFeatures) (kind : Kind) → Sees user flags kind → ListPage
page_of user flags member_list h = record {
  Status = MemberStatus;
  Action = Action;
  row_actions = member_actions user;
  click = click;
  perform = perform_member user;
  taken = member-taken user;
  lasting = lasts (perform_member user) (member-lasts user);
}
page_of user flags coach_list h = record {
  Status = CoachStatus;
  Action = Action;
  row_actions = coach_actions user;
  click = click;
  perform = perform_coach user;
  taken = coach-taken user;
  lasting = lasts (perform_coach user) (coach-lasts user);
}
page_of user flags tenant_list h = record {
  Status = TenantStatus;
  Action = Action;
  row_actions = tenant_actions;
  click = click;
  perform = perform_tenant user;
  taken = tenant-taken user (tenants_seen user flags h);
  lasting = lasts (perform_tenant user) (tenant-lasts user (tenants_seen user flags h));
}
-- class_list and plan_list
page_of user flags _ h = record {
  Status = Bool;
  Action = Action;
  row_actions = catalogue_actions user;
  click = click;
  perform = perform_catalogue user;
  taken = catalogue-taken user;
  lasting = lasts (perform_catalogue user) (catalogue-lasts user);
}
