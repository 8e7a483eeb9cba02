-- ===== src/Plans/Form/Rows.antt =====
-- The rows of a plan form: what every edit keeps of them, and that the server takes them.
use dopacrm.Base.{
  ◌≡◌, refl, Bool, true, not, String, Option, none, some, List, [], ◌∷◌, ℕ, zero, suc, map, filter,
  ◌==◌, all, includes, All, All-filter, All-includes, Every, Bool-cases, Option-cases, inl, inr,
  string_eq, arith, sym, ap, ◌∙◌,
}
use mathlib.Core.Path.{subst}
use mathlib.Core.Option.{some-ne-none}
use mathlib.Core.Bool.{true≢false}
use dopacrm.Base.Integers.{ℤ}
use dopacrm.Base.Scan.{Number, nan, whole, or_null}
use dopacrm.Server.Attendance.{ResetPeriod, unlimited}
use dopacrm.Server.Plans.{
  plan_type_eq, billing_period_eq, reset_period_eq, EntitlementInput, validate_entitlement,
  validate_entitlements,
}
use dopacrm.Plans.Form.Entitlements.{
  Row, PlanEntitlement, row_of, number_of, ClassOption, row_passes, on_wire, entitlement_of,
  RowEdit, class_chosen, quantity_typed, reset_chosen, row_offers, row_edit_offered, patch_row,
  edit_row, add_row, remove_row, set_reset, class_options,
}

-- A row without a limit has no quantity, and a row's class is one of the tenant's.
abbrev pub RowFits : (String → Bool) → Row → Type 0
RowFits in_tenant row =
    ((row.reset_period == unlimited) ≡ true → row.quantity ≡ none)
    × Every (λ id. in_tenant id ≡ true) row.class_id

module _ (in_tenant : String → Bool) where
  pub add_row-Fits :
      (rows : List Row) → All (RowFits in_tenant) rows → All (RowFits in_tenant) (add_row rows)
  unfolding reset_period_eq
  add_row-Fits [] h = ((λ e. ground arith, tt), tt)
  add_row-Fits (r ∷ rs) (p, h) = (p, add_row-Fits rs h)

  pub remove_row-Fits :
      (i : ℕ) (rows : List Row)
      → All (RowFits in_tenant) rows
      → All (RowFits in_tenant) (remove_row i rows)
  remove_row-Fits i [] h = tt
  remove_row-Fits zero (r ∷ rs) h = h.1
  remove_row-Fits (suc i) (r ∷ rs) h = (h.0, remove_row-Fits i rs h.1)

  module _ (classes : List ClassOption)
      (own : All (λ (c : ClassOption). in_tenant c.id ≡ true) classes) where
    own_class :
        (v : String) (p : ClassOption → Bool)
        → includes (map (λ (c : ClassOption). c.id) (filter p classes)) v ≡ true
        → in_tenant v ≡ true
    own_class v p e =
        let (_, named, owned) =
          All-includes _ (λ (c : ClassOption). c.id) (filter p classes) v
            (All-filter _ p classes own) e in
        subst (λ id. in_tenant id ≡ true) named owned.0

    or_null-Every :
        (row : Row) (v : String)
        → row_offers classes row (class_chosen v) ≡ true
        → Every (λ id. in_tenant id ≡ true) (or_null v)
    unfolding or_null row_offers class_options
    or_null-Every row v offer = elim (Bool-cases (v == "")) [
      | inl empty ↦ rw empty tt
      | inr named ↦ rw named (own_class v _ (rw named at offer))
    ]

    set_reset-Fits :
        (reset : ResetPeriod) (row : Row)
        → RowFits in_tenant row
        → RowFits in_tenant (set_reset reset row)
    unfolding set_reset
    set_reset-Fits reset row (q, c) = elim (Bool-cases (reset == unlimited)) [
      | inl e ↦ rw e ((λ _. refl), c)
      | inr e ↦ rw e ((λ k. absurd (true≢false (sym k ∙ e))), c)
    ]

    patch_row-Fits :
        (row : Row) (e : RowEdit)
        → row_offers classes row e ≡ true
        → RowFits in_tenant row
        → RowFits in_tenant (patch_row e row)
    unfolding patch_row row_offers
    patch_row-Fits row (class_chosen v) offer (q, c) = (q, or_null-Every row v offer)
    patch_row-Fits row (quantity_typed v) offer (q, c) =
        ((λ k. absurd (true≢false (sym offer ∙ ap not k))), c)
    patch_row-Fits row (reset_chosen reset) offer fits = set_reset-Fits reset row fits

    pub edit_row-Fits :
        (i : ℕ) (e : RowEdit) (rows : List Row)
        → row_edit_offered classes rows i e ≡ true
        → All (RowFits in_tenant) rows
        → All (RowFits in_tenant) (edit_row i e rows)
    edit_row-Fits i e [] offer h = tt
    edit_row-Fits zero e (r ∷ rs) offer (p, h) = (patch_row-Fits r e offer p, h)
    edit_row-Fits (suc i) e (r ∷ rs) offer (p, h) = (p, edit_row-Fits i e rs offer h)

  quantity-validate :
      (class : Option String) (q : Option Number) (reset : ResetPeriod)
      → ((reset == unlimited) ≡ true → q ≡ none)
      → Every (λ id. in_tenant id ≡ true) class
      → row_passes (record { class_id = class; quantity = q; reset_period = reset }) ≡ true
      → validate_entitlement in_tenant
          (record { class_id = class; quantity = on_wire q; reset_period = reset })
        ≡ none
  unfolding validate_entitlement row_passes
  quantity-validate none none reset free own pass = ground arith
  quantity-validate none (some nan) reset free own pass = ground arith
  quantity-validate none (some (whole n)) reset free own pass = ground arith
  quantity-validate (some c) none reset free own pass = ground arith
  quantity-validate (some c) (some nan) reset free own pass = ground arith
  quantity-validate (some c) (some (whole n)) reset free own pass = ground arith

  row-validate :
      (row : Row)
      → RowFits in_tenant row
      → row_passes row ≡ true
      → validate_entitlement in_tenant (entitlement_of row) ≡ none
  row-validate row (free, own) pass =
      quantity-validate row.class_id row.quantity row.reset_period free own pass

  pub rows-validate :
      (rows : List Row)
      → All (RowFits in_tenant) rows
      → all row_passes rows ≡ true
      → validate_entitlements in_tenant (map entitlement_of rows) ≡ none
  unfolding validate_entitlements
  rows-validate [] h pass = refl
  rows-validate (r ∷ rs) (p, h) pass =
      rw (validate_entitlements, row-validate r p (ground arith))
        (rows-validate rs h (ground arith))

  -- What the server stores of an entitlement passes for one that it is sent.
  abbrev pub stored : PlanEntitlement → EntitlementInput
  stored e = record { class_id = e.class_id; quantity = e.quantity; reset_period = e.reset_period }

  entitlement-Fits :
      (class : Option String) (q : Option ℤ) (reset : ResetPeriod)
      → validate_entitlement in_tenant
          (record { class_id = class; quantity = q; reset_period = reset })
        ≡ none
      → RowFits in_tenant
          (record { class_id = class; quantity = number_of q; reset_period = reset })
  unfolding validate_entitlement
  entitlement-Fits none none reset ok = (λ _. refl, tt)
  entitlement-Fits none (some n) reset ok = (λ e. ground arith, tt)
  entitlement-Fits (some c) none reset ok = (λ _. refl, ground arith)
  entitlement-Fits (some c) (some n) reset ok = (λ e. ground arith, ground arith)

  pub entitlements-Fit :
      (es : List PlanEntitlement)
      → validate_entitlements in_tenant (map stored es) ≡ none
      → All (RowFits in_tenant) (map row_of es)
  unfolding validate_entitlements
  entitlements-Fit [] ok = tt
  entitlements-Fit (e ∷ es) ok = elim (Option-cases (validate_entitlement in_tenant (stored e))) [
    | inl fine ↦ (
      entitlement-Fits e.class_id e.quantity e.reset_period fine,
      entitlements-Fit es (rw (validate_entitlements, fine) at ok),
    )
    | inr (broken, fails) ↦ absurd (some-ne-none broken (rw (validate_entitlements, fails) at ok))
  ]
