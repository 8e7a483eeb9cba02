-- ===== src/Cache/Queries.antt =====
-- All queries of the `hooks.ts` files under frontend/src/features.
use dopacrm.Base.{Bool, String}
use dopacrm.Api.Members.{MemberFilters}
use dopacrm.Api.Classes.{ClassFilters}
use dopacrm.Api.Plans.{PlanFilters}
use dopacrm.Api.Subscriptions.{SubscriptionFilters}
use dopacrm.Api.Payments.{PaymentFilters}
use dopacrm.Api.Attendance.{EntryFilters}
use dopacrm.Api.Leads.{LeadFilters, LostReasonFilters}
use dopacrm.Api.Schedule.{TemplateFilters, SessionRange}
use dopacrm.Api.Coaches.{CoachFilters}
use dopacrm.Cache.Keys.{Key}
use dopacrm.Cache.Hooks.{QueryOptions}
use dopacrm.Cache.Hooks.Members.{use_members, use_member}
use dopacrm.Cache.Hooks.Classes.{use_classes, use_class}
use dopacrm.Cache.Hooks.Plans.{use_plans, use_plan}
use dopacrm.Cache.Hooks.Subscriptions.{
  use_subscriptions, use_subscription, use_subscription_events, use_current_subscription_for_member,
  use_subscription_history_for_member,
}
use dopacrm.Cache.Hooks.Payments.{
  use_payments, use_payment, use_member_payments, use_revenue_summary,
}
use dopacrm.Cache.Hooks.Attendance.{
  use_attendance_list, use_member_attendance, use_member_attendance_summary, use_quota_check,
}
use dopacrm.Cache.Hooks.Leads.{
  use_leads, use_lead, use_lead_activities, use_lead_stats, use_lost_reasons,
}
use dopacrm.Cache.Hooks.Schedule.{use_templates, use_template, use_sessions, use_session}
use dopacrm.Cache.Hooks.Coaches.{
  use_coaches, use_coach, use_coaches_for_class, use_classes_for_coach, use_coach_earnings,
  use_earnings_summary,
}
use dopacrm.Cache.Hooks.Tenants.{use_tenants, use_tenant, use_tenant_stats}
use dopacrm.Cache.Hooks.Users.{use_tenant_users}
use dopacrm.Cache.Hooks.Stats.{use_platform_stats}

pub data Query : Type 0 where
  -- features/members/hooks.ts
  members : MemberFilters → Query
  member : String → Query
  -- features/classes/hooks.ts
  classes : ClassFilters → Query
  class : String → Query
  -- features/plans/hooks.ts
  plans : PlanFilters → Query
  plan : String → Query
  -- features/subscriptions/hooks.ts
  subscriptions : SubscriptionFilters → Query
  subscription : String → Query
  subscription_events : String → Query
  current_subscription_for_member : String → Query
  subscription_history_for_member : String → Query
  -- features/payments/hooks.ts
  payments : PaymentFilters → Query
  payment : String → Query
  member_payments : String → Query
  revenue_summary : Query
  -- features/attendance/hooks.ts
  attendance_list : EntryFilters → Query
  member_attendance : String → Query
  member_attendance_summary : String → Query
  quota_check : String → String → Bool → Query
  -- features/leads/hooks.ts
  leads : LeadFilters → Query
  lead : String → Query
  lead_activities : String → Query
  lead_stats : Query
  lost_reasons : LostReasonFilters → Query
  -- features/schedule/hooks.ts
  templates : TemplateFilters → Query
  template : String → Query
  sessions : SessionRange → Query
  session : String → Query
  -- features/coaches/hooks.ts
  coaches : CoachFilters → Query
  coach : String → Query
  coaches_for_class : String → Bool → Query
  classes_for_coach : String → Bool → Query
  coach_earnings : String → String → String → Query
  earnings_summary : String → String → Query
  -- features/tenants/hooks.ts
  tenants : Query
  tenant : String → Query
  tenant_stats : String → Query
  -- features/users/hooks.ts
  tenant_users : String → Query
  -- features/dashboard/hooks.ts
  platform_stats : Query

-- The hook of a query.
abbrev pub query : Query → QueryOptions
query (members filters) = use_members filters
query (member id) = use_member id
query (classes filters) = use_classes filters
query (class id) = use_class id
query (plans filters) = use_plans filters
query (plan id) = use_plan id
query (subscriptions filters) = use_subscriptions filters
query (subscription id) = use_subscription id
query (subscription_events id) = use_subscription_events id
query (current_subscription_for_member member_id) = use_current_subscription_for_member member_id
query (subscription_history_for_member member_id) = use_subscription_history_for_member member_id
query (payments filters) = use_payments filters
query (payment id) = use_payment id
query (member_payments member_id) = use_member_payments member_id
query revenue_summary = use_revenue_summary
query (attendance_list filters) = use_attendance_list filters
query (member_attendance member_id) = use_member_attendance member_id
query (member_attendance_summary member_id) = use_member_attendance_summary member_id
query (quota_check member_id class_id enabled) = use_quota_check member_id class_id enabled
query (leads filters) = use_leads filters
query (lead id) = use_lead id
query (lead_activities lead_id) = use_lead_activities lead_id
query lead_stats = use_lead_stats
query (lost_reasons filters) = use_lost_reasons filters
query (templates filters) = use_templates filters
query (template id) = use_template id
query (sessions range) = use_sessions range
query (session id) = use_session id
query (coaches filters) = use_coaches filters
query (coach id) = use_coach id
query (coaches_for_class class_id only_current) = use_coaches_for_class class_id only_current
query (classes_for_coach coach_id only_current) = use_classes_for_coach coach_id only_current
query (coach_earnings coach_id from to) = use_coach_earnings coach_id from to
query (earnings_summary from to) = use_earnings_summary from to
query tenants = use_tenants
query (tenant id) = use_tenant id
query (tenant_stats id) = use_tenant_stats id
query (tenant_users tenant_id) = use_tenant_users tenant_id
query platform_stats = use_platform_stats

abbrev pub query_key : Query → Key
query_key q = (query q).query_key
