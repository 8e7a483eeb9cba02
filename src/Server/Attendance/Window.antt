-- ===== src/Server/Attendance/Window.antt =====
-- `_compute_window_start` of backend/app/services/attendance_service.py: since when the entries of a member count
-- against an entitlement. A moment is the number of milliseconds since 1 January 1970, in UTC, and a date the number of
-- days; 1 January 1970 is a Thursday.
pub mod Laws
use Prim.Native.Nat.{◌/◌, ◌%◌}
use dopacrm.Base.{ℕ, ◌+◌, ◌-◌, ◌*◌, leb, if◌then◌else◌}
use dopacrm.Server.Attendance.{ResetPeriod, weekly, monthly, billing_period, never, unlimited}
use dopacrm.Server.Plans
use dopacrm.Server.Plans.{BillingPeriod, quarterly, yearly, one_time}

abbrev pub midnight : ℕ → ℕ
midnight date = date * 86400000

-- `(now.weekday() + 1) % 7`
abbrev pub days_since_sunday : ℕ → ℕ
days_since_sunday date = (date + 4) % 7

-- The day of the year, for years that begin on 1 March.
abbrev day_of_year : ℕ → ℕ
day_of_year date =
    let day = (date + 719468) % 146097 in
    let year = (day - day / 1460 + day / 36524 - day / 146096) / 365 in
    day - (365 * year + year / 4 - year / 100)

-- `now.day - 1`
abbrev pub days_since_first : ℕ → ℕ
days_since_first date = let day = day_of_year date in day - (153 * ((5 * day + 2) / 153) + 2) / 5

-- `_BILLING_PERIOD_DAYS.get(billing_period, 30)`
abbrev pub billing_period_days : BillingPeriod → ℕ
billing_period_days Plans.monthly = 30
billing_period_days quarterly = 90
billing_period_days yearly = 365
billing_period_days one_time = 30

-- The division of a positive number, rounded up: `//` of a negative one, rounded down.
abbrev div_up : ℕ → ℕ → ℕ
div_up a b = (a + b - 1) / b

-- `start_dt + timedelta(days=cycles_done * days)`, for a subscription that has begun, and for one that has not
abbrev pub cycle_start : ℕ → ℕ → ℕ → ℕ
cycle_start days now start =
    if leb start now
    then start + midnight ((now - start) / 86400000 / days * days)
    else start - midnight (div_up (div_up (start - now) 86400000) days * days)

unfoldable pub compute_window_start : ResetPeriod → ℕ → ℕ → BillingPeriod → ℕ
compute_window_start weekly now _ _ = midnight (now / 86400000 - days_since_sunday (now / 86400000))
compute_window_start monthly now _ _ = midnight (now / 86400000 - days_since_first (now / 86400000))
compute_window_start billing_period now sub_started_at period =
    cycle_start (billing_period_days period) now (midnight sub_started_at)
compute_window_start never now sub_started_at _ = midnight sub_started_at
compute_window_start unlimited now _ _ = 0
