-- ===== src/Lists/Menus.antt =====
-- What the menus of the list pages offer, against what the server makes of it.
use dopacrm.Base.{
  ◌≡◌, refl, sym, Bool, true, false, not, ◌||◌, Option, none, some, [], ◌∷◌, is_some, ◌⊎◌, inl, inr,
  ◌==◌, All, ◌&◌, Bool-cases, if◌then◌else◌,
}
use dopacrm.Auth.Types.{User, role_eq}
use dopacrm.Server.Statuses.{
  MemberStatus, active, frozen, expired, cancelled, CoachStatus, TenantStatus, member_status_eq,
  coach_status_eq, tenant_status_eq, is_owner, when, can_freeze_coach, can_unfreeze_coach,
  can_cancel_coach, can_freeze_member, can_unfreeze_member, can_cancel_member, is_super_admin,
}
use mathlib.Core.Bool.{true≢false, false≢true}
use mathlib.Core.Path.{subst}
use mathlib.Core.Option.{none-ne-some, some-injective}
use dopacrm.Ui.Table.{visible}
use dopacrm.Ui.Table.Laws.{All-visible}
use dopacrm.Ui.Rows.{navigates, asks, sends}
use dopacrm.Lists.Pages.{
  Action, detail, item, open_detail, freeze, unfreeze, cancel, deactivate, activate, suspend, click,
  can_mutate_rows, member_actions, coach_actions, catalogue_actions, tenant_actions, perform_member,
  perform_coach, perform_catalogue, perform_tenant,
}

-- The server does an action, or it only opens a page.
abbrev pub Done : {S : Type 0} → (Action → S → Option S) → S → Action → Type 0
Done perform s a = (click a ≡ navigates) ⊎ (is_some (perform a s) ≡ true)

freezes : (s : MemberStatus) → not (s == MemberStatus.active) ≡ false → can_freeze_member s ≡ true
unfolding member_status_eq
freezes active h = refl
freezes frozen h = absurd (true≢false h)
freezes expired h = absurd (true≢false h)
freezes cancelled h = absurd (true≢false h)

unfreezes :
    (s : MemberStatus) → not (s == MemberStatus.frozen) ≡ false → can_unfreeze_member s ≡ true
unfolding member_status_eq
unfreezes active h = absurd (true≢false h)
unfreezes frozen h = refl
unfreezes expired h = absurd (true≢false h)
unfreezes cancelled h = absurd (true≢false h)

cancels : (s : MemberStatus) → (s == MemberStatus.cancelled) ≡ false → can_cancel_member s ≡ true
unfolding member_status_eq
cancels active h = refl
cancels frozen h = refl
cancels expired h = refl
cancels cancelled h = absurd (true≢false h)

both_off : (a b : Bool) → (not a || b) ≡ false → (a ≡ true) × (b ≡ false)
both_off true b h = (refl, h)
both_off false b h = absurd (true≢false h)

freezes_coach :
    (s : CoachStatus) → not (s == CoachStatus.active) ≡ false → can_freeze_coach s ≡ true
unfolding coach_status_eq
freezes_coach active h = refl
freezes_coach frozen h = absurd (true≢false h)
freezes_coach cancelled h = absurd (true≢false h)

unfreezes_coach :
    (s : CoachStatus) → not (s == CoachStatus.frozen) ≡ false → can_unfreeze_coach s ≡ true
unfolding coach_status_eq
unfreezes_coach active h = absurd (true≢false h)
unfreezes_coach frozen h = refl
unfreezes_coach cancelled h = absurd (true≢false h)

cancels_coach : (s : CoachStatus) → (s == CoachStatus.cancelled) ≡ false → can_cancel_coach s ≡ true
unfolding coach_status_eq
cancels_coach active h = refl
cancels_coach frozen h = refl
cancels_coach cancelled h = absurd (true≢false h)

asks-cancel : (a : Action) → click a ≡ asks → a ≡ cancel
asks-cancel open_detail h = cc
asks-cancel freeze h = cc
asks-cancel unfreeze h = cc
asks-cancel cancel h = refl
asks-cancel deactivate h = cc
asks-cancel activate h = cc
asks-cancel suspend h = cc

-- A cancellation that the server would do before another action, it does after it.
pub CancelLasts : {S : Type 0} → (Action → S → Option S) → Type 0
CancelLasts {S} perform =
    (b : Action) (s t : S)
    → click b ≡ sends
    → is_some (perform cancel s) ≡ true
    → perform b s ≡ some t
    → is_some (perform cancel t) ≡ true

pub lasts :
    {S : Type 0} (perform : Action → S → Option S)
    → CancelLasts perform
    → (a b : Action) (s t : S) → click a ≡ asks
    → click b ≡ sends
    → is_some (perform a s) ≡ true
    → perform b s ≡ some t
    → is_some (perform a t) ≡ true
unfolding CancelLasts
lasts perform h a b s t ask sent may given =
    subst (λ x. is_some (perform x t) ≡ true) (sym (asks-cancel a ask))
      (h b s t sent (subst (λ x. is_some (perform x s) ≡ true) (asks-cancel a ask) may) given)

when-to : {S : Type 0} (b : Bool) (to t : S) → when b to ≡ some t → to ≡ t
when-to true to t e = some-injective to t e
when-to false to t e = absurd (none-ne-some t e)

guarded : {S : Type 0} (b : Bool) (x : Option S) → is_some (if b then x else none) ≡ true → b ≡ true
guarded true x h = refl
guarded false x h = absurd (false≢true h)

guarded-when :
    {S : Type 0} (b c : Bool) (to t : S) → (if b then when c to else none) ≡ some t → to ≡ t
guarded-when true c to t e = when-to c to t e
guarded-when false c to t e = absurd (none-ne-some t e)

module _ (user : User) where
  pub member-taken :
      (s : MemberStatus) → All (Done (perform_member user) s) (visible s (member_actions user))
  unfolding member_actions perform_member can_mutate_rows is_owner
  member-taken s = All-visible (Done (perform_member user) s) s (member_actions user) (
      (λ _. inl refl)
      & (λ h. inr (rw (freezes s h) refl))
      & (λ h. inr (rw (unfreezes s h) refl))
      & (λ h.
          let (owns, free) = both_off (can_mutate_rows user) (s == MemberStatus.cancelled) h in
          inr (rw (owns, cancels s free) refl))
      & tt)

  pub member-lasts : CancelLasts (perform_member user)
  unfolding CancelLasts perform_member
  member-lasts freeze s t sent may given =
      subst (λ x. is_some (perform_member user cancel x) ≡ true)
        (when-to (can_freeze_member s) MemberStatus.frozen t given)
        (rw (guarded (is_owner user) (when (can_cancel_member s) MemberStatus.cancelled) may) refl)
  member-lasts unfreeze s t sent may given =
      subst (λ x. is_some (perform_member user cancel x) ≡ true)
        (when-to (can_unfreeze_member s) MemberStatus.active t given)
        (rw (guarded (is_owner user) (when (can_cancel_member s) MemberStatus.cancelled) may) refl)
  member-lasts open_detail s t sent may given = absurd (none-ne-some t given)
  member-lasts cancel s t sent may given = cc
  member-lasts deactivate s t sent may given = absurd (none-ne-some t given)
  member-lasts activate s t sent may given = absurd (none-ne-some t given)
  member-lasts suspend s t sent may given = absurd (none-ne-some t given)

  pub coach-taken :
      (s : CoachStatus) → All (Done (perform_coach user) s) (visible s (coach_actions user))
  unfolding coach_actions perform_coach can_mutate_rows is_owner
  coach-taken s = elim (Bool-cases (can_mutate_rows user)) [
    | inl owns ↦ rw owns (
        All-visible (Done (perform_coach user) s) s
          (detail
            ∷ item freeze (λ s. not (s == CoachStatus.active))
            ∷ item unfreeze (λ s. not (s == CoachStatus.frozen))
            ∷ item cancel (λ s. s == CoachStatus.cancelled)
            ∷ [])
          ((λ _. inl refl)
            & (λ h. inr (rw (owns, freezes_coach s h) refl))
            & (λ h. inr (rw (owns, unfreezes_coach s h) refl))
            & (λ h. inr (rw (owns, cancels_coach s h) refl))
            & tt))
    | inr owns_not ↦ rw owns_not tt
  ]

  pub coach-lasts : CancelLasts (perform_coach user)
  unfolding CancelLasts perform_coach
  coach-lasts freeze s t sent may given =
      subst (λ x. is_some (perform_coach user cancel x) ≡ true)
        (guarded-when (is_owner user) (can_freeze_coach s) CoachStatus.frozen t given)
        (rw (guarded (is_owner user) (when (can_cancel_coach s) CoachStatus.cancelled) may) refl)
  coach-lasts unfreeze s t sent may given =
      subst (λ x. is_some (perform_coach user cancel x) ≡ true)
        (guarded-when (is_owner user) (can_unfreeze_coach s) CoachStatus.active t given)
        (rw (guarded (is_owner user) (when (can_cancel_coach s) CoachStatus.cancelled) may) refl)
  coach-lasts open_detail s t sent may given = absurd (none-ne-some t given)
  coach-lasts cancel s t sent may given = cc
  coach-lasts deactivate s t sent may given = absurd (none-ne-some t given)
  coach-lasts activate s t sent may given = absurd (none-ne-some t given)
  coach-lasts suspend s t sent may given = absurd (none-ne-some t given)

  pub catalogue-taken :
      (s : Bool) → All (Done (perform_catalogue user) s) (visible s (catalogue_actions user))
  unfolding catalogue_actions perform_catalogue can_mutate_rows is_owner
  catalogue-taken s = elim (Bool-cases (can_mutate_rows user)) [
    | inl owns ↦ rw owns (
        All-visible (Done (perform_catalogue user) s) s
          (detail ∷ item deactivate (λ s. not s) ∷ item activate (λ s. s) ∷ [])
          ((λ _. inl refl) & (λ h. inr (rw owns refl)) & (λ h. inr (rw owns refl)) & tt))
    | inr owns_not ↦ rw owns_not tt
  ]

  pub catalogue-lasts : CancelLasts (perform_catalogue user)
  unfolding CancelLasts perform_catalogue
  catalogue-lasts b s t sent may given = absurd (false≢true may)

  pub tenant-taken :
      is_super_admin user ≡ true
      → (s : TenantStatus) → All (Done (perform_tenant user) s) (visible s tenant_actions)
  unfolding tenant_actions perform_tenant
  tenant-taken rules s = All-visible (Done (perform_tenant user) s) s tenant_actions (
      (λ _. inl refl)
      & (λ h. inr (rw rules refl))
      & (λ h. inr (rw rules refl))
      & (λ h. inr (rw rules refl))
      & tt)

  pub tenant-lasts : is_super_admin user ≡ true → CancelLasts (perform_tenant user)
  unfolding CancelLasts perform_tenant
  tenant-lasts rules b s t sent may given = rw rules refl
