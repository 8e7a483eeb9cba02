-- ===== src/CheckIn/Feed/Laws.antt =====
-- The feed of recent entries against the server.
use dopacrm.Base.{
  ◌≡◌, refl, sym, ap, ◌∙◌, Bool, true, false, not, ◌&&◌, String, Option, some, List, [], ◌∷◌, ℕ,
  zero, suc, ◌+◌, ◌-◌, ◌*◌, ◌≤◌, ◌<◌, ltb, ◌==◌, ==_iff, string_eq, filter, take, is_some, All,
  All-map, All-filter, Bool-cases, inl, inr, arith,
}
use dopacrm.Auth.Types.{User, role_eq}
use dopacrm.Server.Entries.{Entry, Outcome, done, is_staff, find_by_id, undo, list_for_tenant}
use dopacrm.Server.Entries.Laws.{undo-found, is_in_tenant-own}
use dopacrm.CheckIn.Feed.{
  feed_row, TimeAgo, under_a_minute, minutes_ago, hours_ago, on_date, time_ago, has_undo,
}
use dopacrm.CheckIn.Workspace.{GymClass}

-- The text says how old an entry is, or, from 24 hours on, when it was made.
abbrev pub Says : ℕ → ℕ → TimeAgo → Type 0
Says now entered under_a_minute = now - entered < 60000
Says now entered (minutes_ago n) =
    (1 ≤ n) × (n ≤ 59) × (n * 60000 ≤ now - entered) × (now - entered < n * 60000 + 60000)
Says now entered (hours_ago n) =
    (1 ≤ n) × (n ≤ 23) × (n * 3600000 ≤ now - entered) × (now - entered < n * 3600000 + 3600000)
Says now entered (on_date moment) = (moment ≡ entered) × (86400000 ≤ now - entered)

-- The text of an entry says how old it is: less than a minute, the whole minutes, from 1 to 59, the whole hours, from 1 to
-- 23, or, from 24 hours on, its date.
pub time_ago-Says : (now entered : ℕ) → Says now entered (time_ago now entered)
unfolding time_ago
time_ago-Says now entered = elim (Bool-cases (ltb (now - entered) 60000)) [
  | inl a ↦ rw a (ground (arith, a))
  | inr a ↦ elim (Bool-cases (ltb (now - entered) 3600000)) [
    | inl b ↦ rw (a, b) (ground (arith, a), ground (arith, b), omega arith, omega arith)
    | inr b ↦ elim (Bool-cases (ltb (now - entered) 86400000)) [
      | inl c ↦ rw (a, b, c) (ground (arith, b), ground (arith, c), omega arith, omega arith)
      | inr c ↦ rw (a, b, c) (refl, ground (arith, c))
    ]
  ]
]

-- Whether the operation has changed the table.
abbrev pub is_done : Outcome → Bool
is_done (done _) = true
is_done _ = false

-- For an entry of the caller's gym, a button stands exactly where the server would undo the entry.
has_undo-undo :
    (caller : User) (id : String) (now : ℕ) (reason : Option String) (entries : List Entry)
    (e : Entry)
    → is_staff caller ≡ true
    → caller.tenant_id ≡ some e.tenant_id
    → find_by_id id entries ≡ some e
    → has_undo now e ≡ is_done (undo caller id now reason entries)
unfolding has_undo string_eq role_eq
has_undo-undo caller id now reason entries e may mine found =
    rw (undo-found caller id now reason entries e may mine found, is_in_tenant-own caller e mine)
      (ground arith)

All-take : {A : Type 0} (P : A → Type 0) (n : ℕ) (xs : List A) → All P xs → All P (take n xs)
All-take P zero xs h = tt
All-take P (suc n) [] h = tt
All-take P (suc n) (x ∷ xs) (q, h) = (q, All-take P n xs h)

-- What the page says of an entry, and whether the server would undo it.
abbrev pub Fits : List GymClass → User → ℕ → Option String → List Entry → Entry → Type 0
Fits classes caller now reason entries e =
    Says now e.entered_at (feed_row classes now e).time
    × ((feed_row classes now e).undone_badge ≡ false)
    × ((feed_row classes now e).undo_button ≡ is_done (undo caller e.id now reason entries))

listed-Fits :
    (classes : List GymClass) (caller : User) (tenant : String) (now : ℕ) (reason : Option String)
    (entries : List Entry) (e : Entry)
    → is_staff caller ≡ true
    → caller.tenant_id ≡ some tenant
    → find_by_id e.id entries ≡ some e
    → ((e.tenant_id == tenant) && not (is_some e.undone_at)) ≡ true
    → Fits classes caller now reason entries e
unfolding string_eq
listed-Fits classes caller tenant now reason entries e may mine found listed =
    let ours : (e.tenant_id == tenant) ≡ true = ground (arith, listed) in
    (
      time_ago-Says now e.entered_at,
      ground (arith, listed),
      has_undo-undo caller e.id now reason entries e may
          (mine ∙ ap some (sym ((==_iff e.tenant_id tenant).0 ours))) found,
    )

-- A member of the staff has the feed of the gym; the ids of the entries differ, and the clocks of the page and of the
-- server agree. Then each row says how old its entry is: less than a minute, the whole minutes, from 1 to 59, the whole
-- hours, from 1 to 23, or, from 24 hours on, its date. No row is marked as undone, and a row has a button exactly where
-- the server would undo the entry.
pub list_for_tenant-Fits :
    (classes : List GymClass) (caller : User) (tenant : String) (limit now : ℕ)
    (reason : Option String) (entries : List Entry)
    → is_staff caller ≡ true
    → caller.tenant_id ≡ some tenant
    → All (λ e. find_by_id e.id entries ≡ some e) entries
    → All (Fits classes caller now reason entries) (list_for_tenant tenant limit entries)
unfolding list_for_tenant string_eq
list_for_tenant-Fits classes caller tenant limit now reason entries may mine ids =
    let listed : Entry → Bool = λ e. (e.tenant_id == tenant) && not (is_some e.undone_at) in
    let fits : All (Fits classes caller now reason entries) (filter listed entries) =
      All-map
        (λ e (found, is). listed-Fits classes caller tenant now reason entries e may mine found is)
        (filter listed entries)
        (All-filter (λ e. find_by_id e.id entries ≡ some e) listed entries ids) in
    All-take (Fits classes caller now reason entries) limit (filter listed entries) fits
