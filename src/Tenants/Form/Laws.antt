-- ===== src/Tenants/Form/Laws.antt =====
-- The slug of a new gym against what the server wants of it.
use dopacrm.Base.{
  ◌≡◌, refl, sym, ap, Bool, true, false, not, ◌&&◌, String, List, [], ◌∷◌, leb, all, ◌==◌, includes,
  none, some, if◌then◌else◌, string_eq, ==_iff, ==_ne, Bool-cases, ◌⊎◌, inl, inr, arith,
}
use mathlib.Core.Path.{subst}
use dopacrm.Base.Scan.{trim, size}
use dopacrm.Base.Text.{Lacks}
use dopacrm.Server.Tenants.{valid_slug, matches_slug, slug_unprocessable, slug_taken, slug_error}
use dopacrm.Tenants.Form.{
  keep, hyphens, Values, first_values, Field, phone, email, website, address_street, address_city,
  address_postal_code, address_country, legal_name, tax_id, timezone, currency, set_field, Edit,
  name_to, slug_to, field_to, logo_uploaded, is_automatic, auto_slug, handle_name_change, edit,
  edits, passes,
}
use dopacrm.Tenants.Form.Slug.{hyphens-matches_slug}

length_left : (a b c : Bool) → c ≡ true → (a && b && c) ≡ (a && b)
length_left a b c h = ground arith

valid_slug-length :
    (slug : String)
    → matches_slug false slug ≡ true
    → valid_slug slug ≡ (leb 2 (size slug) && leb (size slug) 64)
unfolding valid_slug
valid_slug-length slug h = length_left (leb 2 (size slug)) (leb (size slug) 64) _ h

turned : {A : Type 0} (b : Bool) (x y : A) → (if not b then x else y) ≡ (if b then y else x)
turned true x y = refl
turned false x y = refl

slug_error-length :
    (others : List String) (slug : String)
    → matches_slug false slug ≡ true
    → slug_error others slug ≡ (
        if leb 2 (size slug) && leb (size slug) 64
        then (if includes others slug then some slug_taken else none)
        else some slug_unprocessable)
unfolding slug_error
slug_error-length others slug h =
    rw (valid_slug-length slug h) (turned (leb 2 (size slug) && leb (size slug) 64) _ _)

second : (a b : Bool) → (not a && not b) ≡ true → b ≡ false
second a b h = ground arith

second_filled : (f : Values) → passes f ≡ true → (f.slug == "") ≡ false
second_filled f pass = second (f.name == "") (f.slug == "") pass

module _ (lower : String → String) where
  abbrev IsSynced : Values → Type 0
  IsSynced f = (f.slug ≡ "") ⊎ (f.slug ≡ auto_slug lower f.name)

  set_field-kept :
      (k : Field) (v : String) (f : Values)
      → ((set_field k v f).slug ≡ f.slug) × ((set_field k v f).name ≡ f.name)
  set_field-kept phone v f = (refl, refl)
  set_field-kept email v f = (refl, refl)
  set_field-kept website v f = (refl, refl)
  set_field-kept address_street v f = (refl, refl)
  set_field-kept address_city v f = (refl, refl)
  set_field-kept address_postal_code v f = (refl, refl)
  set_field-kept address_country v f = (refl, refl)
  set_field-kept legal_name v f = (refl, refl)
  set_field-kept tax_id v f = (refl, refl)
  set_field-kept timezone v f = (refl, refl)
  set_field-kept currency v f = (refl, refl)

  edit-IsSynced :
      (e : Edit) (f : Values) → is_automatic e ≡ true → IsSynced f → IsSynced (edit lower true e f)
  unfolding edit handle_name_change
  edit-IsSynced (name_to v) f a h = inr refl
  edit-IsSynced (slug_to v) f a h = ground arith
  edit-IsSynced (field_to k v) f a h = rw ((set_field-kept k v f).0, (set_field-kept k v f).1) h
  edit-IsSynced (logo_uploaded key url) f a h = h

  edits-IsSynced :
      (es : List Edit) (f : Values)
      → all is_automatic es ≡ true
      → IsSynced f
      → IsSynced (edits lower true es f)
  edits-IsSynced [] f a h = h
  edits-IsSynced (e ∷ es) f a h =
      edits-IsSynced es (edit lower true e f) (ground arith) (edit-IsSynced e f (ground arith) h)

  auto_slug-matches_slug :
      (v : String)
      → Lacks 45 (lower v)
      → (auto_slug lower v == "") ≡ false
      → matches_slug false (auto_slug lower v) ≡ true
  unfolding auto_slug
  auto_slug-matches_slug v h more = elim (Bool-cases (trim (keep (lower v)) == "")) [
    | inl blank ↦ absurd (
        ==_ne {A = String} ⦃e = string_eq⦄ (auto_slug lower v) "" more
          (ap hyphens ((==_iff {A = String} ⦃e = string_eq⦄ (trim (keep (lower v))) "").0 blank)))
    | inr there ↦ hyphens-matches_slug (lower v) h there
  ]

  IsSynced-matches_slug :
      (f : Values)
      → IsSynced f
      → Lacks 45 (lower f.name)
      → passes f ≡ true
      → matches_slug false f.slug ≡ true
  IsSynced-matches_slug f (inl e) h pass =
      absurd (==_ne {A = String} ⦃e = string_eq⦄ f.slug "" (second_filled f pass) e)
  IsSynced-matches_slug f (inr e) h pass =
      subst (λ x. matches_slug false x ≡ true) (sym e)
        (auto_slug-matches_slug f.name h (subst (λ x. (x == "") ≡ false) e (second_filled f pass)))

  -- In the form of a new gym the slug is not typed by hand, and the name, in lower case, has no hyphen. If the
  -- browser lets the form be submitted, the server refuses the slug where it does not have 2 to 64 characters, and where
  -- another gym has it, and for no other reason.
  pub edits-valid_slug :
      (others : List String) (es : List Edit)
      → all is_automatic es ≡ true
      → Lacks 45 (lower (edits lower true es first_values).name)
      → passes (edits lower true es first_values) ≡ true
      → let slug = (edits lower true es first_values).slug in
        slug_error others slug ≡ (
          if leb 2 (size slug) && leb (size slug) 64
          then (if includes others slug then some slug_taken else none)
          else some slug_unprocessable)
  edits-valid_slug others es a h pass =
      slug_error-length others (edits lower true es first_values).slug (
        IsSynced-matches_slug (edits lower true es first_values)
          (edits-IsSynced es first_values a (inl refl)) h pass)
