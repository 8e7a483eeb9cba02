-- ===== src/Schedule/Week/Laws.antt =====
-- The grid of a week shows each session under the date on which it starts.
use dopacrm.Base.{
  ◌≡◌, refl, ap, ◌∙◌, Bool, true, false, not, ◌&&◌, ◌||◌, String, Option, none, some, List, [], ◌∷◌,
  ℕ, zero, suc, ◌+◌, ◌≤◌, leb, ltb, eqb, filter, map, ◌==◌, string_eq, option_eq, Bool-cases, inl,
  inr, arith,
}
use dopacrm.Auth.Types.{User, coach, role_eq}
use dopacrm.Schedule.WeekGrid.{ClassSession, first_hour, last_hour, sort, cell}
use dopacrm.Schedule.WeekGrid.Laws.{starts_in, cell-sort}
use dopacrm.Schedule.Week.{
  Zone, day_of, SessionRow, has_coach, is_listed, list_sessions, SchedulePage, Dialog,
  template_form, ad_hoc, bulk, show_dialog, sunday_of, Step, previous, this_week, following, opens,
  closes, activates, Reach, first, next, session_of, page_sessions, header_date,
}

-- The sessions of the gym that the user may see: for a coach, the own ones.
abbrev pub may_see : User → Option String → String → SessionRow → Bool
may_see caller none tenant s = (s.tenant_id == tenant) && not (caller.role == coach)
may_see caller (some id) tenant s =
    (s.tenant_id == tenant) && (not (caller.role == coach) || has_coach id s)

show_dialog-week :
    (d : Dialog) (b : Bool) (p : SchedulePage) → (show_dialog d b p).week_start ≡ p.week_start
unfolding show_dialog
show_dialog-week template_form b p = refl
show_dialog-week ad_hoc b p = refl
show_dialog-week bulk b p = refl

same_week :
    (date day : ℕ) (start : ℕ)
    → day_of start ≡ 0
    → day ≤ 6
    → (leb start date && ltb date (start + 7) && eqb (day_of date) day) ≡ eqb date (start + day)
same_week date day start sunday short = ground arith

filter-filter :
    {A B : Type 0} (p m : A → Bool) (q r : B → Bool) (f : A → B)
    → ((a : A) → (p a && q (f a)) ≡ (m a && r (f a)))
    → (xs : List A) → filter q (map f (filter p xs)) ≡ filter r (map f (filter m xs))
filter-filter p m q r f h [] = refl
filter-filter p m q r f h (x ∷ xs) = ground (arith, h x, filter-filter p m q r f h xs)

filter-none :
    {A : Type 0} (p : A → Bool) → ((a : A) → p a ≡ false) → (xs : List A) → filter p xs ≡ []
filter-none p h [] = refl
filter-none p h (x ∷ xs) = rw (h x) (filter-none p h xs)

module _ (zone : Zone) where
  -- The session starts on this date, in this hour.
  abbrev pub starts_on : ℕ → ℕ → ClassSession → Bool
  starts_on date hour s =
      eqb (zone.date_of s.starts_at.time) date && eqb (zone.hour_of s.starts_at.time) hour

  midnight-later : (d e : ℕ) → d ≤ e → zone.midnight d ≤ zone.midnight e
  midnight-later d zero h = let same : d ≡ 0 = omega arith in rw same (omega arith)
  midnight-later d (suc e) h = elim (Bool-cases (leb d e)) [
    | inl before ↦ omega (arith, midnight-later d e (ground arith), zone.midnight-next e)
    | inr after ↦ let same : d ≡ suc e = ground (arith, after) in rw same (omega arith)
  ]

  -- A moment is past the beginning of the dates up to its own.
  leb-midnight : (date time : ℕ) → leb (zone.midnight date) time ≡ leb date (zone.date_of time)
  leb-midnight date time = elim (Bool-cases (leb date (zone.date_of time))) [
    | inl past ↦
        let begun = zone.begun time in
        let earlier = midnight-later date (zone.date_of time) (ground (arith, past)) in
        rw past (ground (arith, begun, earlier))
    | inr future ↦
        let over = zone.not_over time in
        let later = midnight-later (suc (zone.date_of time)) date (ground (arith, future)) in
        rw future (ground (arith, over, later))
  ]

  ltb-midnight : (date time : ℕ) → ltb time (zone.midnight date) ≡ ltb (zone.date_of time) date
  ltb-midnight date time = ground (arith, leb-midnight date time)

  sunday_of-Sunday : (now : ℕ) → 4 ≤ zone.date_of now → day_of (sunday_of zone now) ≡ 0
  sunday_of-Sunday now h = omega arith

  Step-Sunday :
      {user : Option User} {p q : SchedulePage}
      → Step zone user p q
      → day_of p.week_start ≡ 0
      → day_of q.week_start ≡ 0
  Step-Sunday (previous p late) h = omega arith
  Step-Sunday (this_week p now late) h = sunday_of-Sunday now late
  Step-Sunday (following p) h = omega arith
  Step-Sunday (opens p d may) h = rw (show_dialog-week d true p) h
  Step-Sunday (closes p d) h = rw (show_dialog-week d false p) h
  Step-Sunday (activates p s) h = h

  Reach-Sunday :
      {user : Option User} {p : SchedulePage} → Reach zone user p → day_of p.week_start ≡ 0
  Reach-Sunday (first now late) = sunday_of-Sunday now late
  Reach-Sunday (next run step) = Step-Sunday step (Reach-Sunday run)

  module _ (start day hour : ℕ) (sunday : day_of start ≡ 0) (short : day ≤ 6) where
    -- Of the sessions listed for a week, those of a day of the week are those of its date.
    listed-starts_on :
        (tenant : String) (s : SessionRow)
        → (is_listed tenant (zone.midnight start) (zone.midnight (start + 7)) none true s
            && starts_in day hour (session_of zone s))
          ≡ ((s.tenant_id == tenant) && starts_on (start + day) hour (session_of zone s))
    unfolding string_eq
    listed-starts_on tenant s =
        rw (leb-midnight start s.starts_at, ltb-midnight (start + 7) s.starts_at)
          (ground (arith, same_week (zone.date_of s.starts_at) day start sunday short))

    own-starts_on :
        (tenant id : String) (s : SessionRow)
        → (is_listed tenant (zone.midnight start) (zone.midnight (start + 7)) (some id) true s
            && starts_in day hour (session_of zone s))
          ≡ ((s.tenant_id == tenant)
              && has_coach id s
              && starts_on (start + day) hour (session_of zone s))
    unfolding string_eq option_eq
    own-starts_on tenant id s =
        rw (leb-midnight start s.starts_at, ltb-midnight (start + 7) s.starts_at)
          (ground (arith, same_week (zone.date_of s.starts_at) day start sunday short))

    page-starts_on :
        (caller : User) (own : Option String) (tenant : String) (rows : List SessionRow)
        (p : SchedulePage)
        → p.week_start ≡ start
        → filter (starts_in day hour) (page_sessions zone caller own tenant rows p)
          ≡ filter
              (starts_on (start + day) hour)
              (map (session_of zone) (filter (may_see caller own tenant) rows))
    unfolding page_sessions list_sessions string_eq role_eq option_eq
    page-starts_on caller none tenant rows p at = elim (Bool-cases (caller.role == coach)) [
      | inl is ↦
          rw (at, is, filter-none (may_see caller none tenant) (λ s. ground (arith, is)) rows) refl
      | inr other ↦
          rw (at, other)
            (filter-filter _ _ _ _ (session_of zone)
              (λ s. listed-starts_on tenant s ∙ ground (arith, other)) rows)
    ]
    page-starts_on caller (some id) tenant rows p at = elim (Bool-cases (caller.role == coach)) [
      | inl is ↦
          rw (at, is)
            (filter-filter _ _ _ _ (session_of zone)
              (λ s. own-starts_on tenant id s ∙ ground (arith, is)) rows)
      | inr other ↦
          rw (at, other)
            (filter-filter _ _ _ _ (session_of zone)
              (λ s. listed-starts_on tenant s ∙ ground (arith, other)) rows)
    ]

  -- The page is opened, and the user moves between weeks, opens dialogs and sessions. Then each cell of the rows from 6 to
  -- 22 shows exactly the sessions of the gym that the user may see and that start, in the time of the browser, on the date
  -- in the header of the cell's column and in the cell's hour, in the order of their starts; a coach may see the own ones.
  pub page-cell :
      {p : SchedulePage} (caller : User) (own : Option String) (tenant : String)
      (rows : List SessionRow) (day hour : ℕ)
      → Reach zone (some caller) p
      → day ≤ 6
      → first_hour ≤ hour
      → hour ≤ last_hour
      → cell (page_sessions zone caller own tenant rows p) day hour
        ≡ sort (
            filter
              (starts_on (header_date p day) hour)
              (map (session_of zone) (filter (may_see caller own tenant) rows)))
  page-cell {p = p} caller own tenant rows day hour run short low high =
      cell-sort (page_sessions zone caller own tenant rows p) day hour low high
      ∙ ap sort (
          page-starts_on p.week_start day hour (Reach-Sunday run) short caller own tenant rows p
            refl)
