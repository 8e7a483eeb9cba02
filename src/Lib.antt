-- ===== src/Lib.antt =====
-- The web client of DopaCRM, a CRM for gyms: frontend/src, a React application in TypeScript.
--
-- The client asks the server for everything. `Http` is the way there: `ApiClient`
-- (lib/api-client.ts), the two calls that go to `fetch` directly, and the texts that a failure
-- is shown as (lib/api-errors.ts). `Api` has the functions of the features' api.ts, one for
-- each endpoint, and `Cache` the features' hooks.ts, which put those functions under TanStack
-- Query: the keys of the queries, and what each mutation does to the cache. `Auth` holds the
-- session (features/auth/auth-provider.tsx) and the permissions (features/auth/permissions.ts).
-- `App` puts the session in front of the pages: the route table (app/App.tsx), its guards and
-- the navigation (components/layout). The rest are pages, forms and dialogs with a state of
-- their own: `Leads`, the board of leads and the page of one lead (features/leads); `CheckIn`,
-- the check-in page (features/attendance); `Schedule`, the page of the schedule with its week, the form for a
-- class that recurs and the dialog for a range of dates (features/schedule); `Coaches`, the
-- form that attaches a coach to a class (features/coaches); `Plans`, the form of a membership
-- plan (features/plans); `Tenants`, the form of a gym (features/tenants); `Lists`, the
-- five pages that list members, coaches, classes, plans and gyms; `Members`, the form of a member
-- (features/members); `Subscriptions`, a member's subscriptions with the five
-- dialogs that change them (features/subscriptions); `Payments`, a member's payments, the
-- dialog that records one, and what is left of one after its refunds (features/payments); and
-- `Ui`, the combobox that those forms load their choices with
-- (components/ui/async-combobox.tsx), the table of the lists (components/ui/data-table.tsx) and what
-- the pages of lists have in common. `Server` has the parts of backend/app that the client's
-- behaviour is measured against: what a form sends is put to the checks of the server.
--
-- Files:
--   Base: shared names; the conditional and Boolean tests (Tests), `===` (Equality), the array methods
--     (Lists), `String(n)` (Decimal), texts cut at a character (Text), whole numbers (Integers),
--     `trim` and `parseInt` (Scan).
--   Auth: Types (`User`, `Role`), Permissions (`canAccess`, `accessibleFeatures`), Session
--     (`AuthProvider`).
--   App: Routes (`App`, `ProtectedRoute`, `RequireFeature`), Sidebar (`NAV_ITEMS`, `visibleItems`), Login
--     (`LoginPage`).
--   Http: Json, Fetch (`Response`, `ApiError`), Client (`ApiClient`, `login`, `uploadLogo`), Messages
--     and Messages/Humanize (`genericMessage`, `humanize…Error`).
--   Api: Params (`URLSearchParams`), and a file for each feature (`listMembers`, `convertLead`, …).
--   Cache: Keys and Filters (the keys of queries), Hooks with a file for each feature (`useMembers`,
--     `useConvertLead`, …), Queries and Mutations (all hooks in one type), Client (`QueryClient`).
--   Leads: Types, Kanban (`KanbanBoard`), Detail (`LeadDetailPage`).
--   CheckIn: Page (`CheckInPage`, `MemberPicker`), Scanner (`QrScannerPanel`), Quota (`findQuotaForClass`),
--     Cards (`ClassGrid`, `MemberSummaryStrip`), Workspace (`ActiveMemberWorkspace`), Feed
--     (`RecentEntriesFeed`).
--   Schedule: Week (`SchedulePage`, `list_sessions`), WeekGrid (`WeekGrid`, its cells), Bulk
--     (`BulkActionDialog`), Template (`TemplateForm`), Picker (`loadClasses`, which three dialogs share).
--   Coaches: Weekdays (`WeekdaysPicker`), Assign (`AssignCoachForm`).
--   Plans: Form (`PlanForm`) and Form/Entitlements (its rows of entitlements).
--   Tenants: Form (`TenantForm`).
--   Lists: Pages (the menus of `MemberListPage`, `CoachListPage`, `ClassListPage`, `PlanListPage` and
--     `TenantListPage`).
--   Members: Form (`MemberForm`, `update_member`).
--   Subscriptions: Types, Section (`MemberSubscriptionSection`), Dialogs (`SubscriptionEnrollDialog`, …), Page
--     (what the section sends).
--   Payments: Section (`PaymentsSection`), Record (`RecordPaymentDialog`), Refunds (`isFullyRefunded`,
--     `RefundPaymentDialog`).
--   Ui: Combobox (`AsyncCombobox`), Table (`DataTable`), Rows (the rows and the dialog of a list page, over
--     the interface `ListPage`).
--   Server: `AppError`, `_STATUS_MAP`, `app_error_handler`; Leads (`can_transition_to`), Attendance
--     (`quota_check`, `_quota_check_for_sub`, `summary_for_member`) with Attendance/Window (`_compute_window_start`), Entries
--     (`record_entry`, `undo`), Plans (the shape of a plan), Subscriptions (the guards,
--     the checks of the table on frozen rows, and what becomes of a member's rows), Payments (`record`), Schedule (`bulk_action`, `create_template`),
--     Coaches (`assign_to_class` and the unique role of a coach), Tenants (`SLUG_PATTERN`, the slugs in use), Statuses (`freeze`, `unfreeze`,
--     `cancel`, `suspend_tenant`, …).
-- Laws, Bounds, Upload, Columns, ReadOnly, Kept, Sums, OneLive, Answers, Taken, Settle,
-- Slug, Menus, Counts, Links and, below Combobox and Form, Pages and Rows hold proofs, Tests hold runs and the theorems at
-- concrete inputs.
--
-- An object of the source is a record, a union of string literals a data type, `null` and
-- `undefined` are `none`, an exception is a value of `Result`. Numbers are those that the client
-- sends as counts and offsets, and the parts of a date: naturals; amounts of money are whole
-- numbers of cents; a date that is only compared is a number of days, and a moment of a check-in a
-- number of milliseconds. What may happen in several orders is a relation: `Auth.Session` counts
-- the calls in flight, the combobox keeps the loads in flight, and the pages and forms take the
-- events of their user. What comes from elsewhere is a parameter: `fetch` (`Fetch`), the browser's
-- time zone (`Zone`), react-router's choice of a route (`Router`), TanStack Query's cache
-- (`QueryClient`), what `loadItems` answers, the floating-point arithmetic from a typed amount to
-- cents, `toLowerCase`. A body of a request is a JSON value as the caller built it, or a record of
-- its fields. A Hebrew text is a constructor of `Message`, `QuotaLabel`, `CardLabel` or `TimeAgo`,
-- or a parameter. The only fuel is that of `App.Routes.visit`, the number of redirects followed;
-- `decimal` recurs on the number that it prints.
--
-- Not modelled: markup, styles and labels, the filters of the lists, the forms of new members, of
-- classes, coaches and users, the two dialogs of one session of the schedule, the reports, the
-- landing page, and the server but for the parts above.
pub mod Base
pub mod Auth
pub mod App
pub mod Http
pub mod Server
pub mod Api
pub mod Cache
pub mod Leads
pub mod CheckIn
pub mod Coaches
pub mod Tenants
pub mod Lists
pub mod Members
pub mod Schedule
pub mod Payments
pub mod Plans
pub mod Ui
pub mod Subscriptions
