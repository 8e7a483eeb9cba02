-- ===== src/Cache/Mutations.antt =====
-- All mutations of the `hooks.ts` files under frontend/src/features.
use dopacrm.Base.{String, Option, List}
use dopacrm.Http.Json.{Json}
use dopacrm.Cache.Hooks.{MutationOptions, Answer, Effect}
use dopacrm.Cache.Hooks.Members.{
  use_create_member, use_update_member, use_freeze_member, use_unfreeze_member, use_cancel_member,
}
use dopacrm.Cache.Hooks.Classes.{
  use_create_class, use_update_class, use_deactivate_class, use_activate_class,
}
use dopacrm.Cache.Hooks.Plans.{
  use_create_plan, use_update_plan, use_deactivate_plan, use_activate_plan,
}
use dopacrm.Cache.Hooks.Subscriptions.{
  use_create_subscription, use_freeze_subscription, use_unfreeze_subscription,
  use_renew_subscription, use_change_plan, use_cancel_subscription,
}
use dopacrm.Cache.Hooks.Payments.{use_record_payment, use_refund_payment}
use dopacrm.Cache.Hooks.Attendance.{use_record_entry, use_undo_entry}
use dopacrm.Cache.Hooks.Leads.{
  use_create_lead, use_update_lead, use_set_lead_status, use_assign_lead, use_convert_lead,
  use_add_activity,
}
use dopacrm.Cache.Hooks.Schedule.{
  use_create_template, use_update_template, use_deactivate_template, use_create_ad_hoc_session,
  use_update_session, use_cancel_session, use_bulk_action, use_update_tenant_features,
}
use dopacrm.Cache.Hooks.Coaches.{
  use_create_coach, use_update_coach, use_freeze_coach, use_unfreeze_coach, use_cancel_coach,
  use_invite_coach_user, use_assign_coach_to_class, use_update_class_coach_link,
  use_delete_class_coach_link, use_reassign_entry_coach,
}
use dopacrm.Cache.Hooks.Tenants.{
  use_create_tenant, use_update_tenant, use_suspend_tenant, use_activate_tenant, use_cancel_tenant,
  use_upload_logo,
}
use dopacrm.Cache.Hooks.Users.{use_create_user, use_update_user, use_delete_user}

pub data Mutation : Type 0 where
  -- features/members/hooks.ts
  create_member : Json → Mutation
  update_member : String → Json → Mutation
  freeze_member : String → Option String → Mutation
  unfreeze_member : String → Mutation
  cancel_member : String → Mutation
  -- features/classes/hooks.ts
  create_class : Json → Mutation
  update_class : String → Json → Mutation
  deactivate_class : String → Mutation
  activate_class : String → Mutation
  -- features/plans/hooks.ts
  create_plan : Json → Mutation
  update_plan : String → Json → Mutation
  deactivate_plan : String → Mutation
  activate_plan : String → Mutation
  -- features/subscriptions/hooks.ts
  create_subscription : Json → Mutation
  freeze_subscription : String → Json → Mutation
  unfreeze_subscription : String → Mutation
  renew_subscription : String → Json → Mutation
  change_plan : String → Json → Mutation
  cancel_subscription : String → Json → Mutation
  -- features/payments/hooks.ts
  record_payment : Json → Mutation
  refund_payment : String → Json → Mutation
  -- features/attendance/hooks.ts
  record_entry : Json → Mutation
  undo_entry : String → Json → Mutation
  -- features/leads/hooks.ts
  create_lead : Json → Mutation
  update_lead : String → Json → Mutation
  set_lead_status : String → Json → Mutation
  assign_lead : String → Json → Mutation
  convert_lead : String → Json → Mutation
  add_activity : String → Json → Mutation
  -- features/schedule/hooks.ts
  create_template : Json → Mutation
  update_template : String → Json → Mutation
  deactivate_template : String → Mutation
  create_ad_hoc_session : Json → Mutation
  update_session : String → Json → Mutation
  cancel_session : String → Json → Mutation
  bulk_action : Json → Mutation
  update_tenant_features : String → Json → Mutation
  -- features/coaches/hooks.ts
  create_coach : Json → Mutation
  update_coach : String → Json → Mutation
  freeze_coach : String → Mutation
  unfreeze_coach : String → Mutation
  cancel_coach : String → Mutation
  invite_coach_user : String → Json → Mutation
  assign_coach_to_class : String → Json → Mutation
  update_class_coach_link : String → Json → Mutation
  delete_class_coach_link : String → Mutation
  reassign_entry_coach : String → Option String → Mutation
  -- features/tenants/hooks.ts
  create_tenant : Json → Mutation
  update_tenant : String → Json → Mutation
  suspend_tenant : String → Mutation
  activate_tenant : String → Mutation
  cancel_tenant : String → Mutation
  upload_logo : String → Mutation
  -- features/users/hooks.ts
  create_user : Option String → Json → Mutation
  update_user : Option String → String → Json → Mutation
  delete_user : Option String → String → Mutation

-- The hook of a mutation.
abbrev pub mutation : Mutation → MutationOptions
mutation (create_member body) = use_create_member body
mutation (update_member id body) = use_update_member id body
mutation (freeze_member id until) = use_freeze_member id until
mutation (unfreeze_member id) = use_unfreeze_member id
mutation (cancel_member id) = use_cancel_member id
mutation (create_class body) = use_create_class body
mutation (update_class id body) = use_update_class id body
mutation (deactivate_class id) = use_deactivate_class id
mutation (activate_class id) = use_activate_class id
mutation (create_plan body) = use_create_plan body
mutation (update_plan id body) = use_update_plan id body
mutation (deactivate_plan id) = use_deactivate_plan id
mutation (activate_plan id) = use_activate_plan id
mutation (create_subscription body) = use_create_subscription body
mutation (freeze_subscription id body) = use_freeze_subscription id body
mutation (unfreeze_subscription id) = use_unfreeze_subscription id
mutation (renew_subscription id body) = use_renew_subscription id body
mutation (change_plan id body) = use_change_plan id body
mutation (cancel_subscription id body) = use_cancel_subscription id body
mutation (record_payment body) = use_record_payment body
mutation (refund_payment id body) = use_refund_payment id body
mutation (record_entry body) = use_record_entry body
mutation (undo_entry id body) = use_undo_entry id body
mutation (create_lead body) = use_create_lead body
mutation (update_lead id body) = use_update_lead id body
mutation (set_lead_status id body) = use_set_lead_status id body
mutation (assign_lead id body) = use_assign_lead id body
mutation (convert_lead id body) = use_convert_lead id body
mutation (add_activity id body) = use_add_activity id body
mutation (create_template body) = use_create_template body
mutation (update_template id body) = use_update_template id body
mutation (deactivate_template id) = use_deactivate_template id
mutation (create_ad_hoc_session body) = use_create_ad_hoc_session body
mutation (update_session id body) = use_update_session id body
mutation (cancel_session id body) = use_cancel_session id body
mutation (bulk_action body) = use_bulk_action body
mutation (update_tenant_features tenant_id body) = use_update_tenant_features tenant_id body
mutation (create_coach body) = use_create_coach body
mutation (update_coach id body) = use_update_coach id body
mutation (freeze_coach id) = use_freeze_coach id
mutation (unfreeze_coach id) = use_unfreeze_coach id
mutation (cancel_coach id) = use_cancel_coach id
mutation (invite_coach_user id body) = use_invite_coach_user id body
mutation (assign_coach_to_class class_id body) = use_assign_coach_to_class class_id body
mutation (update_class_coach_link link_id body) = use_update_class_coach_link link_id body
mutation (delete_class_coach_link link_id) = use_delete_class_coach_link link_id
mutation (reassign_entry_coach entry_id coach_id) = use_reassign_entry_coach entry_id coach_id
mutation (create_tenant body) = use_create_tenant body
mutation (update_tenant id body) = use_update_tenant id body
mutation (suspend_tenant id) = use_suspend_tenant id
mutation (activate_tenant id) = use_activate_tenant id
mutation (cancel_tenant id) = use_cancel_tenant id
mutation (upload_logo file) = use_upload_logo file
mutation (create_user tenant body) = use_create_user tenant body
mutation (update_user tenant id body) = use_update_user tenant id body
mutation (delete_user tenant id) = use_delete_user tenant id

abbrev pub on_success : Mutation → Answer → List Effect
on_success m = (mutation m).on_success
