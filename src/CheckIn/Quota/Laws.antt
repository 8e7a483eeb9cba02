-- ===== src/CheckIn/Quota/Laws.antt =====
-- The client's look into the summary against the server's answer for one class.
use dopacrm.Base.{
  ◌≡◌, refl, sym, ap, ◌∙◌, Bool, not, String, Option, none, some, List, [], ◌∷◌, ℕ, ◌==◌, ==_iff,
  ==_none, ==_some, string_eq, option_eq, find, map, is_some, get_or, ◌≢◌, Bool-cases, Option-cases,
  inl, inr, ◌⊎◌, arith,
}
use mathlib.Core.Option.{map as option_map}
use dopacrm.Server.Attendance.{
  Entitlement, QuotaCheckResult, is_for, is_wildcard, find_matching_entitlement, ResetPeriod,
  weekly, monthly, billing_period, never, unlimited, quota_in, quota_for_entitlement,
  summary_for_member, not_covered, quota_check, live_quota_check, live_summary,
}
use dopacrm.CheckIn.Quota.{id_is, is_exact, is_any, find_quota_for_class}

module _ {A B : Type 0} where
  find-map :
      (f : A → B) (p : A → Bool) (q : B → Bool)
      → ((a : A) → q (f a) ≡ p a)
      → (xs : List A) → find q (map f xs) ≡ option_map f (find p xs)
  find-map f p q h [] = refl
  find-map f p q h (x ∷ xs) = elim (Bool-cases (p x)) [
    | inl e ↦ rw (h x, e) refl
    | inr e ↦ rw (h x, e) (find-map f p q h xs)
  ]

id_is-eq : (class : String) → class ≢ "" → (o : Option String) → id_is class o ≡ (o == some class)
unfolding id_is
id_is-eq class h none = sym (==_none class)
id_is-eq class h (some id) = rw (==_some id class) (elim (Bool-cases (id == class)) [
  | inl same ↦ elim (Bool-cases (id == "")) [
    | inl blank ↦ absurd (h (sym ((==_iff id class).0 same) ∙ (==_iff id "").0 blank))
    | inr set ↦ rw (same, set) refl
  ]
  | inr other ↦ ground (arith, other)
])

module _ (count : Entitlement → ℕ) where
  quota_in-class_id :
      (p : ResetPeriod) (e : Entitlement) → (quota_in count p e).class_id ≡ e.class_id
  quota_in-class_id weekly e = refl
  quota_in-class_id monthly e = refl
  quota_in-class_id billing_period e = refl
  quota_in-class_id never e = refl
  quota_in-class_id unlimited e = refl

  is_exact-quota :
      (class : String)
      → class ≢ ""
      → (e : Entitlement) → is_exact class (quota_for_entitlement count e) ≡ is_for class e
  is_exact-quota class h e =
      ap (id_is class) (quota_in-class_id e.reset_period e) ∙ id_is-eq class h e.class_id

  is_any-quota : (e : Entitlement) → is_any (quota_for_entitlement count e) ≡ is_wildcard e
  is_any-quota e = ap (λ c. not (is_some c)) (quota_in-class_id e.reset_period e)

  find_quota_for_class-find :
      (summary : List QuotaCheckResult) (class : String)
      → find_quota_for_class summary class
        ≡ elim (find (is_exact class) summary) [ some q ↦ some q | none ↦ find is_any summary ]
  unfolding find_quota_for_class
  find_quota_for_class-find [] class = refl
  find_quota_for_class-find (s ∷ summary) class = refl

  -- The row that the client finds is the row of the entitlement that the server finds.
  pub find_quota_for_class-map :
      (es : List Entitlement) (class : String)
      → class ≢ ""
      → find_quota_for_class (summary_for_member count es) class
        ≡ option_map (quota_for_entitlement count) (find_matching_entitlement es class)
  unfolding find_matching_entitlement
  find_quota_for_class-map es class h =
      let exact =
        find-map (quota_for_entitlement count) (is_for class) (is_exact class)
          (is_exact-quota class h) es in
      let any = find-map (quota_for_entitlement count) is_wildcard is_any is_any-quota es in
      find_quota_for_class-find (summary_for_member count es) class
      ∙ elim (Option-cases (find (is_for class) es)) [
        | inl n ↦ rw (exact, n, any, find_matching_entitlement) refl
        | inr (e, n) ↦ rw (exact, n, find_matching_entitlement) refl
      ]

  find_quota_for_class-entitlements :
      (es : List Entitlement) (class : String)
      → class ≢ ""
      → get_or (find_quota_for_class (summary_for_member count es) class) (not_covered count)
        ≡ quota_check count es class
  unfolding quota_check
  find_quota_for_class-entitlements es class h =
      rw (find_quota_for_class-map es class h)
        (elim (Option-cases (find_matching_entitlement es class)) [
          | inl n ↦ rw (n, quota_check) refl
          | inr (e, n) ↦ rw (n, quota_check) refl
        ])

  -- The class has an id. Where the member has a live subscription, what the client reads in the summary of its
  -- entitlements is what the server answers for the class, and where the client finds nothing, also because the plan has
  -- no entitlements at all, the server answers that the class is not covered. Where the member has no live
  -- subscription, the client finds nothing, and the server answers with an error.
  pub find_quota_for_class-quota_check :
      (live : Option (List Entitlement)) (class : String)
      → class ≢ ""
      → ((live ≡ none)
          × (find_quota_for_class (live_summary count live) class ≡ none)
          × (live_quota_check count live class ≡ none))
        ⊎ ((es : List Entitlement) × (live ≡ some es)
            × (live_quota_check count live class
                ≡ some (
                    get_or
                      (find_quota_for_class (live_summary count live) class)
                      (not_covered count))))
  unfolding find_quota_for_class
  find_quota_for_class-quota_check none class h = inl (refl, refl, refl)
  find_quota_for_class-quota_check (some es) class h =
      inr (es, refl, ap some (sym (find_quota_for_class-entitlements es class h)))
