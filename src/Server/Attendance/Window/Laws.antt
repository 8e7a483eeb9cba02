-- ===== src/Server/Attendance/Window/Laws.antt =====
-- The window of an entitlement contains the present.
use Prim.Native.Nat.{◌/◌}
use dopacrm.Base.{◌≡◌, refl, ℕ, ◌+◌, ◌-◌, ◌*◌, ◌≤◌, ◌<◌, Option, none, some, Every, arith}
use dopacrm.Server.Attendance.{ResetPeriod, weekly, monthly, billing_period, never, unlimited}
use dopacrm.Server.Plans
use dopacrm.Server.Plans.{BillingPeriod, quarterly, yearly, one_time}
use dopacrm.Server.Attendance.Window.{
  midnight, days_since_sunday, days_since_first, billing_period_days, cycle_start,
  compute_window_start,
}

days_since_first_case : days_since_first 20514 ≡ 1
days_since_first_case = refl

-- How many milliseconds a window has at most.
abbrev pub longest : ResetPeriod → BillingPeriod → Option ℕ
longest weekly _ = some (7 * 86400000)
longest monthly _ = some (31 * 86400000)
longest billing_period period = some (billing_period_days period * 86400000)
longest never _ = none
longest unlimited _ = none

days_since_first-short : (date : ℕ) → days_since_first date ≤ 30
days_since_first-short date = omega arith

abbrev Spans : ℕ → ℕ → ℕ → Type 0
Spans now start days = (start ≤ now) × (now < start + days * 86400000)

midnight-Spans :
    (days now back : ℕ) → back < days → Spans now (midnight (now / 86400000 - back)) days
midnight-Spans days now back h = (omega arith, omega arith)

cycle_start-Spans :
    (period : BillingPeriod) (now start : ℕ)
    → start ≤ now
    → Spans now (cycle_start (billing_period_days period) now start) (billing_period_days period)
cycle_start-Spans Plans.monthly now start h = ground arith
cycle_start-Spans quarterly now start h = ground arith
cycle_start-Spans yearly now start h = ground arith
cycle_start-Spans one_time now start h = ground arith

-- The subscription has begun. Then the window of every entitlement begins in the past; that of a week, a month or
-- a billing period has begun no longer ago than that: 7 days, 31 days, or the days of the billing period.
pub compute_window_start-Current :
    (p : ResetPeriod) (now sub_started_at : ℕ) (period : BillingPeriod)
    → midnight sub_started_at ≤ now
    → (compute_window_start p now sub_started_at period ≤ now)
      × Every
          (λ most. now < compute_window_start p now sub_started_at period + most)
          (longest p period)
unfolding compute_window_start
compute_window_start-Current weekly now started period h =
    midnight-Spans 7 now (days_since_sunday (now / 86400000)) (omega arith)
compute_window_start-Current monthly now started period h =
    midnight-Spans 31 now (days_since_first (now / 86400000))
      (omega (arith, days_since_first-short (now / 86400000)))
compute_window_start-Current billing_period now started period h =
    cycle_start-Spans period now (midnight started) h
compute_window_start-Current never now started period h = (h, tt)
compute_window_start-Current unlimited now started period h = (omega arith, tt)
