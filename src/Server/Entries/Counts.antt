-- ===== src/Server/Entries/Counts.antt =====
-- Against which entitlement an entry counts.
use dopacrm.Base.{
  ◌≡◌, refl, sym, ap, ◌∙◌, Bool, true, String, Option, some, List, [], ◌∷◌, suc, ◌≤◌, leb, ==_refl,
  ==_iff, string_eq, option_eq, find, Bool-cases, Option-cases, inl, inr, arith,
}
use mathlib.Core.Bool.{false≢true}
use mathlib.Core.Option.{some-injective}
use dopacrm.Auth.Types.{role_eq}
use dopacrm.Server.Attendance.{Entitlement, find_matching_entitlement, is_for, is_wildcard}
use dopacrm.Server.Attendance.Window.{compute_window_start, midnight}
use dopacrm.Server.Attendance.Window.Laws.{compute_window_start-Current}
use dopacrm.Server.Entries.{
  Entry, Live, is_of, is_counted, used_entries, Record, create, OverrideKind,
}

find-IsTrue :
    (p : Entitlement → Bool) (es : List Entitlement) (e : Entitlement)
    → find p es ≡ some e
    → p e ≡ true
find-IsTrue p [] e found = cc
find-IsTrue p (x ∷ es) e found = elim (Bool-cases (p x)) [
  | inl is ↦ let q : some x ≡ some e = rw is at found in ap p (sym (some-injective x e q)) ∙ is
  | inr is ↦ find-IsTrue p es e (rw is at found)
]

is_for-of :
    (class : String) (e : Entitlement) (entry : Entry)
    → is_for class e ≡ true
    → entry.class_id ≡ class
    → is_of e.class_id entry ≡ true
unfolding string_eq
is_for-of class e entry exact same =
    let is : e.class_id ≡ some class = (==_iff e.class_id (some class)).0 exact in
    rw is ((==_iff entry.class_id class).1 same)

is_wildcard-of :
    (e : Entitlement) (entry : Entry) → is_wildcard e ≡ true → is_of e.class_id entry ≡ true
unfolding string_eq
is_wildcard-of e entry any = elim (Option-cases e.class_id) [
  | inl n ↦ rw n refl
  | inr (c, n) ↦ absurd (false≢true (rw n at any))
]

-- The entitlement of a class counts the entries of the class.
pub find_matching_entitlement-of :
    (es : List Entitlement) (class : String) (e : Entitlement) (entry : Entry)
    → find_matching_entitlement es class ≡ some e
    → entry.class_id ≡ class
    → is_of e.class_id entry ≡ true
unfolding find_matching_entitlement string_eq
find_matching_entitlement-of es class e entry found same =
    elim (Option-cases (find (is_for class) es)) [
      | inl n ↦
          is_wildcard-of e entry
            (find-IsTrue is_wildcard es e (rw (find_matching_entitlement, n) at found))
      | inr (x, n) ↦
          let q : some x ≡ some e = rw (find_matching_entitlement, n) at found in
          is_for-of class e entry
            (ap (is_for class) (sym (some-injective x e q)) ∙ find-IsTrue (is_for class) es x n)
            same
    ]

-- An entry counts against each entitlement of its class whose window has begun.
pub used_entries-create :
    (sub : Live) (r : Record) (kind : Option OverrideKind) (entries : List Entry) (e : Entitlement)
    → midnight sub.started_at ≤ r.now
    → is_of e.class_id (create sub r kind) ≡ true
    → used_entries sub r.now (create sub r kind ∷ entries) e
      ≡ suc (used_entries sub r.now entries e)
unfolding used_entries string_eq
used_entries-create sub r kind entries e begun of =
    let since = compute_window_start e.reset_period r.now sub.started_at sub.billing_period in
    let window =
      compute_window_start-Current e.reset_period r.now sub.started_at sub.billing_period begun in
    let past : leb since r.now ≡ true = ground (arith, window.0) in
    let counts : is_counted sub.member_id e.class_id since (create sub r kind) ≡ true =
      rw (==_refl sub.member_id, past, of) refl in
    rw counts refl
