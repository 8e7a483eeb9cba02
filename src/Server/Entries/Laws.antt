-- ===== src/Server/Entries/Laws.antt =====
-- The effect of an entry, and of its undoing, on what is counted.
use dopacrm.Base.{
  ◌≡◌, refl, sym, ap, ◌∙◌, true, false, ◌&&◌, String, Option, none, some, List, [], ◌∷◌, ℕ, ◌+◌,
  ◌-◌, ◌≤◌, leb, ◌==◌, ==_refl, ==_iff, string_eq, option_eq, map, is_some, includes, Bool-cases,
  inl, inr, arith,
}
use dopacrm.Auth.Types.{User, role_eq}
use dopacrm.Server.Attendance.{Entitlement, QuotaCheckResult, quota_check}
use dopacrm.Server.Attendance.Window.{compute_window_start}
use dopacrm.Server.Entries.{
  OverrideKind, Entry, Live, done, insufficient_permissions, refused, is_counted, used_entries,
  quota_check_for_sub, is_staff, kind_of, Record, create, record_checked, record_for, record_entry,
  mark_undone, find_by_id, is_in_tenant, undo_found, undo, undo_window,
}

done-injective : (xs ys : List Entry) → done xs ≡ done ys → xs ≡ ys
done-injective xs ys p = cc

-- What `record_entry` has added.
abbrev pub Added : Option Live → Record → List Entry → List Entry → Type 0
Added sub r entries after =
    (s : Live) × (kind : Option OverrideKind) × (sub ≡ some s) × (after ≡ create s r kind ∷ entries)

refused-Refused : (check : QuotaCheckResult) (xs : List Entry) → refused check ≡ done xs → ⊥
unfolding string_eq
refused-Refused check xs p = ground (arith, p)

record_checked-Added :
    (s : Live) (r : Record) (entries after : List Entry) (check : QuotaCheckResult)
    → record_checked s r entries check ≡ done after
    → Added (some s) r entries after
unfolding string_eq
record_checked-Added s r entries after check p = elim (Bool-cases check.allowed) [
  | inl may ↦ (s, none, refl, sym (done-injective _ after (rw may at p)))
  | inr may ↦ elim (Bool-cases r.override) [
    | inl over ↦
        (s, some (kind_of check.reason), refl, sym (done-injective _ after (rw (may, over) at p)))
    | inr over ↦ absurd (refused-Refused check after (rw (may, over) at p))
  ]
]

record_for-Added :
    (sub : Option Live) (r : Record) (entries after : List Entry)
    → record_for sub r entries ≡ done after
    → Added sub r entries after
record_for-Added none r entries after p = cc
record_for-Added (some s) r entries after p =
    record_checked-Added s r entries after (quota_check_for_sub s r.now entries r.class_id) p

pub record_entry-Added :
    (caller : User) (sub : Option Live) (r : Record) (entries after : List Entry)
    → record_entry caller sub r entries ≡ done after
    → Added sub r entries after
unfolding record_entry
record_entry-Added caller sub r entries after p =
    elim (Bool-cases (is_staff caller && is_some caller.tenant_id)) [
      | inl may ↦ record_for-Added sub r entries after (rw may at p)
      | inr may ↦ absurd (let q : insufficient_permissions ≡ done after = rw may at p in cc)
    ]

-- A check-in within the quota needs no override.
pub record_entry-allowed :
    (caller : User) (s : Live) (r : Record) (entries : List Entry)
    → (is_staff caller && is_some caller.tenant_id) ≡ true
    → (quota_check_for_sub s r.now entries r.class_id).allowed ≡ true
    → record_entry caller (some s) r entries ≡ done (create s r none ∷ entries)
unfolding record_entry string_eq role_eq
record_entry-allowed caller s r entries may allowed = rw (may, allowed) refl

mark_undone-others :
    (id : String) (now : ℕ) (reason : Option String) (entries : List Entry)
    → includes (map (λ e. e.id) entries) id ≡ false
    → map (mark_undone id now reason) entries ≡ entries
unfolding string_eq
mark_undone-others id now reason [] h = refl
mark_undone-others id now reason (e ∷ entries) h = elim (Bool-cases (e.id == id)) [
  | inl same ↦ absurd (ground (arith, same, h))
  | inr other ↦
      rw other (ap (e ∷◌) (mark_undone-others id now reason entries (ground (arith, other, h))))
]

is_counted-undone :
    (member : String) (class : Option String) (since : ℕ) (e : Entry) (at : ℕ)
    → e.undone_at ≡ some at
    → is_counted member class since e ≡ false
unfolding string_eq
is_counted-undone member class since e at h = rw h (ground arith)

leb-soon : (now entered : ℕ) → now ≤ entered + undo_window → leb (now - entered) undo_window ≡ true
leb-soon now entered h = ground (arith, h)

pub is_in_tenant-own :
    (caller : User) (e : Entry) → caller.tenant_id ≡ some e.tenant_id → is_in_tenant caller e ≡ true
unfolding string_eq role_eq
is_in_tenant-own caller e h = ground (arith, (==_iff caller.tenant_id (some e.tenant_id)).1 h)

used_entries-undone :
    (sub : Live) (now : ℕ) (e : Entry) (at : ℕ) (entries : List Entry) (row : Entitlement)
    → e.undone_at ≡ some at
    → used_entries sub now (e ∷ entries) row ≡ used_entries sub now entries row
unfolding used_entries string_eq
used_entries-undone sub now e at entries row h =
    rw
      (is_counted-undone sub.member_id row.class_id
        (compute_window_start row.reset_period now sub.started_at sub.billing_period) e at h)
      refl

pub undo_found-done :
    (caller : User) (now : ℕ) (reason : Option String) (entries : List Entry) (e : Entry)
    → is_in_tenant caller e ≡ true
    → e.undone_at ≡ none
    → leb (now - e.entered_at) undo_window ≡ true
    → undo_found caller now reason entries (some e)
      ≡ done (map (mark_undone e.id now reason) entries)
unfolding string_eq role_eq
undo_found-done caller now reason entries e own live soon = rw (own, live, soon) refl

pub undo-found :
    (caller : User) (id : String) (now : ℕ) (reason : Option String) (entries : List Entry)
    (e : Entry)
    → is_staff caller ≡ true
    → caller.tenant_id ≡ some e.tenant_id
    → find_by_id id entries ≡ some e
    → undo caller id now reason entries ≡ undo_found caller now reason entries (some e)
unfolding undo string_eq role_eq
undo-found caller id now reason entries e may mine found = rw (may, found, mine) refl

undo-created :
    (undoer : User) (s : Live) (r : Record) (kind : Option OverrideKind) (entries : List Entry)
    (now : ℕ) (reason : Option String)
    → includes (map (λ e. e.id) entries) r.id ≡ false
    → is_staff undoer ≡ true
    → undoer.tenant_id ≡ some r.tenant_id
    → now ≤ r.now + undo_window
    → undo undoer r.id now reason (create s r kind ∷ entries)
      ≡ done (record (create s r kind) { undone_at = some now; undone_reason = reason } ∷ entries)
unfolding undo string_eq role_eq
undo-created undoer s r kind entries now reason fresh may mine soon =
    let e = create s r kind in
    undo-found undoer r.id now reason (e ∷ entries) e may mine (rw (==_refl r.id) refl)
    ∙ undo_found-done undoer now reason (e ∷ entries) e (is_in_tenant-own undoer e mine) refl
        (leb-soon now r.now soon)
    ∙ rw (==_refl r.id, mark_undone-others r.id now reason entries fresh) refl

-- A check-in that the server has taken is undone within 24 hours, by a member of the staff of the same gym. Then
-- the server does undo it, and afterwards, for every live subscription, class and moment, its quota is what it would
-- be without the check-in.
pub undo-record_entry :
    (caller undoer : User) (sub : Option Live) (r : Record) (entries after : List Entry) (now : ℕ)
    (reason : Option String) (other : Live) (later : ℕ) (class : String)
    → record_entry caller sub r entries ≡ done after
    → includes (map (λ e. e.id) entries) r.id ≡ false
    → is_staff undoer ≡ true
    → undoer.tenant_id ≡ some r.tenant_id
    → now ≤ r.now + undo_window
    → (final : List Entry) × (undo undoer r.id now reason after ≡ done final)
      × (quota_check_for_sub other later final class
          ≡ quota_check_for_sub other later entries class)
undo-record_entry caller undoer sub r entries after now reason other later class taken fresh may
      mine soon =
    let (s, kind, _, made) = record_entry-Added caller sub r entries after taken in
    let undone : Entry = record (create s r kind) {
      undone_at = some now;
      undone_reason = reason;
    } in
    (
      undone ∷ entries,
      ap (undo undoer r.id now reason) made
          ∙ undo-created undoer s r kind entries now reason fresh may mine soon,
      ap (λ used. quota_check used other.entitlements class)
          (λ i row. used_entries-undone other later undone now entries row refl i),
    )
