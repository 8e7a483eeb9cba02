-- ===== src/Cache/Filters.antt =====
-- The objects that the query keys of the `hooks.ts` files under frontend/src/features hold: the filters
-- of a list, each field under the name that the hook gives it.
use dopacrm.Base.{[], ◌∷◌}
use dopacrm.Cache.Keys.{Object, text, number, flag, texts, defined}
use dopacrm.Api.Members.{MemberFilters}
use dopacrm.Api.Classes.{ClassFilters}
use dopacrm.Api.Plans.{PlanFilters}
use dopacrm.Api.Subscriptions.{SubscriptionFilters}
use dopacrm.Api.Payments.{PaymentFilters}
use dopacrm.Api.Attendance.{EntryFilters}
use dopacrm.Api.Leads.{LeadFilters, ActivityFilters, LostReasonFilters}
use dopacrm.Api.Schedule.{TemplateFilters, SessionRange}
use dopacrm.Api.Coaches.{CoachFilters}

abbrev pub member_filters_object : MemberFilters → Object
member_filters_object f = defined "status" texts f.status (
    defined "search" text f.search
      (defined "limit" number f.limit (defined "offset" number f.offset [])))

abbrev pub class_filters_object : ClassFilters → Object
class_filters_object f =
    defined "includeInactive" flag f.include_inactive
      (defined "limit" number f.limit (defined "offset" number f.offset []))

abbrev pub plan_filters_object : PlanFilters → Object
plan_filters_object f =
    defined "includeInactive" flag f.include_inactive
      (defined "limit" number f.limit (defined "offset" number f.offset []))

abbrev pub subscription_filters_object : SubscriptionFilters → Object
subscription_filters_object f = defined "memberId" text f.member_id (
    defined "status" text f.status (
      defined "planId" text f.plan_id (
        defined "expiresBefore" text f.expires_before (
          defined "expiresWithinDays" number f.expires_within_days
            (defined "limit" number f.limit (defined "offset" number f.offset []))))))

abbrev pub payment_filters_object : PaymentFilters → Object
payment_filters_object f = defined "memberId" text f.member_id (
    defined "subscriptionId" text f.subscription_id (
      defined "paidFrom" text f.paid_from (
        defined "paidTo" text f.paid_to (
          defined "method" text f.method (
            defined "includeRefunds" flag f.include_refunds
              (defined "limit" number f.limit (defined "offset" number f.offset [])))))))

abbrev pub entry_filters_object : EntryFilters → Object
entry_filters_object f = defined "memberId" text f.member_id (
    defined "classId" text f.class_id (
      defined "dateFrom" text f.date_from (
        defined "dateTo" text f.date_to (
          defined "includeUndone" flag f.include_undone (
            defined "undoneOnly" flag f.undone_only (
              defined "overrideOnly" flag f.override_only
                (defined "limit" number f.limit (defined "offset" number f.offset []))))))))

abbrev pub lead_filters_object : LeadFilters → Object
lead_filters_object f = defined "status" texts f.status (
    defined "source" texts f.source (
      defined "assignedTo" text f.assigned_to (
        defined "search" text f.search
          (defined "limit" number f.limit (defined "offset" number f.offset [])))))

abbrev pub activity_filters_object : ActivityFilters → Object
activity_filters_object f = defined "limit" number f.limit (defined "offset" number f.offset [])

abbrev pub lost_reason_filters_object : LostReasonFilters → Object
lost_reason_filters_object f = defined "days" number f.days (defined "limit" number f.limit [])

abbrev pub template_filters_object : TemplateFilters → Object
template_filters_object f =
    defined "class_id" text f.class_id (defined "only_active" flag f.only_active [])

abbrev pub session_range_object : SessionRange → Object
session_range_object f =
    ("from", text f.from)
    ∷ ("to", text f.to)
    ∷ defined "class_id" text f.class_id (
        defined "coach_id" text f.coach_id
          (defined "include_cancelled" flag f.include_cancelled []))

abbrev pub coach_filters_object : CoachFilters → Object
coach_filters_object f = defined "status" texts f.status (
    defined "search" text f.search
      (defined "limit" number f.limit (defined "offset" number f.offset [])))
