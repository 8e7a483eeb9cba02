-- ===== src/CheckIn/Cards/Laws.antt =====
-- What the page promises before a check-in, and what it shows after.
use dopacrm.Base.{
  ◌≡◌, refl, sym, ap, ◌∙◌, ◌≢◌, true, false, ◌&&◌, String, Option, none, some, List, ◌∷◌, ℕ, zero,
  suc, ◌-◌, ◌≤◌, ltb, ◌==◌, string_eq, option_eq, get_or, is_some, if◌then◌else◌, Option-cases, inl,
  inr, arith,
}
use mathlib.Core.Option.{map as option_map, some-injective, none-ne-some}
use dopacrm.Auth.Types.{User, role_eq}
use dopacrm.Server.Attendance.{
  ResetPeriod, weekly, monthly, billing_period, never, unlimited, Entitlement, quota_check,
  quota_in, counted, period_text, quota_for_entitlement, summary_for_member,
  find_matching_entitlement,
}
use dopacrm.Server.Attendance.Window.{midnight}
use dopacrm.Server.Entries.{Entry, Live, done, used_entries, is_staff, Record, create, record_entry}
use dopacrm.Server.Entries.Laws.{record_entry-allowed}
use dopacrm.Server.Entries.Counts.{find_matching_entitlement-of, used_entries-create}
use dopacrm.CheckIn.Quota.{
  SummaryItem, find_quota_for_class, QuotaLabel, no_limit, empty, left_after,
  format_remaining_after_checkin,
}
use dopacrm.CheckIn.Quota.Laws.{find_quota_for_class-map}
use dopacrm.CheckIn.Cards
use dopacrm.CheckIn.Cards.{CardLabel, full, blank, left, card_label}

-- The card that a dialog has promised: with no entry left, the quota is full.
abbrev pub promised : QuotaLabel → CardLabel
promised no_limit = Cards.no_limit
promised empty = blank
promised (left_after zero _) = full
promised (left_after (suc n) _) = left (suc n)

promised-left :
    (n : ℕ) (p : Option String) → promised (left_after n p) ≡ (if ltb 0 n then left n else full)
promised-left zero p = refl
promised-left (suc n) p = ground arith

left-after :
    (used quantity : ℕ) (p : Option String)
    → ltb used quantity ≡ true
    → (if ltb (suc used) quantity then left (quantity - suc used) else full)
      ≡ promised (left_after (quantity - used - 1) p)
left-after used quantity p may = ground (arith, may, promised-left (quantity - used - 1) p, ap left)

-- One more entry, of an entitlement with a limit that allows one.
promised-counted :
    (count later : Entitlement → ℕ) (e : Entitlement)
    → (period_text e.reset_period == "unlimited") ≡ false
    → later e ≡ suc (count e)
    → ltb (count e) (get_or e.quantity 0) ≡ true
    → card_label (some (counted later e))
      ≡ promised (format_remaining_after_checkin (counted count e))
unfolding card_label format_remaining_after_checkin string_eq
promised-counted count later e limited more may =
    rw (limited, more) (left-after (count e) (get_or e.quantity 0) _ may)

-- The same in each period.
promised-quota_in :
    (count later : Entitlement → ℕ) (e : Entitlement) (p : ResetPeriod)
    → e.reset_period ≡ p
    → later e ≡ suc (count e)
    → (quota_in count p e).allowed ≡ true
    → card_label (some (quota_in later p e))
      ≡ promised (format_remaining_after_checkin (quota_in count p e))
unfolding card_label format_remaining_after_checkin string_eq
promised-quota_in count later e weekly is more may =
    promised-counted count later e (rw is refl) more may
promised-quota_in count later e monthly is more may =
    promised-counted count later e (rw is refl) more may
promised-quota_in count later e billing_period is more may =
    promised-counted count later e (rw is refl) more may
promised-quota_in count later e never is more may =
    promised-counted count later e (rw is refl) more may
promised-quota_in count later e unlimited is more may = refl

-- The caller is of the staff, in the sense of the server, and has a gym, the member's subscription has begun, and the
-- summary that the page shows is the one of the entries and of the moment at which the check-in is recorded. It has a
-- row for the class that allows an entry, and the user confirms the check-in. Then the server records it, and at that
-- moment the card of the class is the one that the dialog has promised.
pub card_label-record_entry :
    (caller : User) (s : Live) (r : Record) (entries : List Entry) (row : SummaryItem)
    → midnight s.started_at ≤ r.now
    → r.class_id ≢ ""
    → (is_staff caller && is_some caller.tenant_id) ≡ true
    → find_quota_for_class
        (summary_for_member (used_entries s r.now entries) s.entitlements)
        r.class_id
      ≡ some row
    → row.allowed ≡ true
    → (after : List Entry) × (record_entry caller (some s) r entries ≡ done after)
      × (card_label (
            find_quota_for_class
              (summary_for_member (used_entries s r.now after) s.entitlements)
              r.class_id)
          ≡ promised (format_remaining_after_checkin row))
unfolding quota_check string_eq role_eq
card_label-record_entry caller s r entries row begun named may found allowed =
    let entry = create s r none in
    let counts = used_entries s r.now entries in
    let later = used_entries s r.now (entry ∷ entries) in
    let before = sym (find_quota_for_class-map counts s.entitlements r.class_id named) ∙ found in
    let after = find_quota_for_class-map later s.entitlements r.class_id named in
    elim (Option-cases (find_matching_entitlement s.entitlements r.class_id)) [
      | inl n ↦ absurd (none-ne-some row (rw n at before))
      | inr (e, n) ↦
          let is_row = some-injective (quota_for_entitlement counts e) row (rw n at before) in
          let open_row = ap (λ q. q.allowed) is_row ∙ allowed in
          let of = find_matching_entitlement-of s.entitlements r.class_id e entry n refl in
          (
            entry ∷ entries,
            record_entry-allowed caller s r entries may (rw (quota_check, n) open_row),
            ap card_label (after ∙ ap (option_map (quota_for_entitlement later)) n)
                ∙ promised-quota_in counts later e e.reset_period refl
                    (used_entries-create s r none entries e begun of) open_row
                ∙ ap (λ q. promised (format_remaining_after_checkin q)) is_row,
          )
    ]
