-- ===== src/Tenants/Form/Slug.antt =====
-- A name without hyphens gives a slug of the server's form, or none.
use Prim.Native.Char.{Char, code}
use dopacrm.Base.{
  ◌≡◌, ◌≢◌, refl, sym, ◌∙◌, ==_ne, Bool, true, false, ◌&&◌, ◌||◌, String, ℕ, eqb, ◌==◌, string_eq,
  Bool-cases, inl, inr, arith,
}
use mathlib.Core.Path.{subst}
use mathlib.Core.Bool.{false≢true}
use dopacrm.Base.Scan.{is_space, trim, trim_start, trim_end}
use dopacrm.Base.Text.{Lacks}
use dopacrm.Server.Tenants.{is_slug_char, matches_slug}
use dopacrm.Tenants.Form.{is_kept, keep, starts_space, hyphens}

-- Every character is a letter or digit of a slug, or a space.
abbrev pub IsClean : String → Type 0
IsClean String.[] = Unit
IsClean (String.◌∷◌ c s) = ((is_slug_char (code c) || is_space (code c)) ≡ true) × IsClean s

left : (a b h : Bool) → (a || b || h) ≡ true → h ≡ false → (a || b) ≡ true
left a b h p q = ground arith

or_left : (a b : Bool) → (a || b) ≡ true → b ≡ false → a ≡ true
or_left a b p q = ground arith

eqb_ne : (m n : ℕ) → m ≢ n → eqb m n ≡ false
eqb_ne m n h = ground arith

keep-IsClean : (s : String) → Lacks 45 s → IsClean (keep s)
keep-IsClean String.[] h = tt
keep-IsClean (String.◌∷◌ c s) (differs, h) = elim (Bool-cases (is_kept (code c))) [
  | inl stays ↦ rw stays (
    left (is_slug_char (code c)) (is_space (code c)) (eqb (code c) 45) stays
        (eqb_ne (code c) 45 differs),
    keep-IsClean s h,
  )
  | inr goes ↦ rw goes (keep-IsClean s h)
]

trim_start-IsClean : (s : String) → IsClean s → IsClean (trim_start s)
unfolding trim_start
trim_start-IsClean String.[] h = tt
trim_start-IsClean (String.◌∷◌ c s) (p, h) = elim (Bool-cases (is_space (code c))) [
  | inl space ↦ rw space (trim_start-IsClean s h)
  | inr other ↦ rw other (p, h)
]

trim_start-starts : (s : String) → starts_space (trim_start s) ≡ false
unfolding trim_start
trim_start-starts String.[] = refl
trim_start-starts (String.◌∷◌ c s) = elim (Bool-cases (is_space (code c))) [
  | inl space ↦ rw space (trim_start-starts s)
  | inr other ↦ rw other other
]

trim_end-starts : (s : String) → starts_space s ≡ false → starts_space (trim_end s) ≡ false
unfolding trim_end
trim_end-starts String.[] h = refl
trim_end-starts (String.◌∷◌ c s) h = rw h h

-- What holds of the slug of a text without a space at its end, behind a letter and at the start.
abbrev IsRest : String → Type 0
IsRest u =
    (matches_slug true (hyphens u) ≡ true)
    × ((u == "") ≡ false → starts_space u ≡ false → matches_slug false (hyphens u) ≡ true)

kept_end :
    (c : Char) (s : String)
    → (is_space (code c) && trim_end s == "") ≡ false
    → String.◌∷◌ c (trim_end s) ≡ trim_end (String.◌∷◌ c s)
unfolding trim_end
kept_end c s h = rw h refl

empty-IsRest : IsRest ""
empty-IsRest = (refl, λ e _. absurd (==_ne {A = String} ⦃e = string_eq⦄ "" "" e refl))

space-IsRest :
    (c : Char) (r : String)
    → is_space (code c) ≡ true
    → (r == "") ≡ false
    → IsRest r
    → IsRest (String.◌∷◌ c r)
space-IsRest c r space more (behind, ahead) = (
  elim (Bool-cases (starts_space r)) [
    | inl again ↦ rw (space, again) behind
    | inr last ↦ rw (space, last, ahead more last) refl
  ],
  λ _ start. absurd (false≢true (sym start ∙ space)),
)

other-IsRest :
    (c : Char) (r : String)
    → is_space (code c) ≡ false
    → is_slug_char (code c) ≡ true
    → IsRest r
    → IsRest (String.◌∷◌ c r)
other-IsRest c r other letter (behind, _) =
    (rw (other, letter, behind) refl, λ _ _. rw (other, letter, behind) refl)

trim_end-IsRest : (s : String) → IsClean s → IsRest (trim_end s)
unfolding trim_end
trim_end-IsRest String.[] h = empty-IsRest
trim_end-IsRest (String.◌∷◌ c s) (p, h) = elim (Bool-cases (is_space (code c))) [
  | inl space ↦ elim (Bool-cases (trim_end s == "")) [
    | inl ended ↦ rw (space, ended) empty-IsRest
    | inr more ↦
        subst IsRest (kept_end c s (rw more (ground arith)))
          (space-IsRest c (trim_end s) space more (trim_end-IsRest s h))
  ]
  | inr other ↦ subst IsRest (kept_end c s (rw other refl)) (
      other-IsRest c (trim_end s) other
        (or_left (is_slug_char (code c)) (is_space (code c)) p other) (trim_end-IsRest s h))
]

-- What becomes of a text without hyphens is empty or of the server's form.
pub hyphens-matches_slug :
    (s : String)
    → Lacks 45 s
    → (trim (keep s) == "") ≡ false
    → matches_slug false (hyphens (trim (keep s))) ≡ true
unfolding trim
hyphens-matches_slug s h more =
    let front = trim_start (keep s) in
    (trim_end-IsRest front (trim_start-IsClean (keep s) (keep-IsClean s h))).1 more
      (trim_end-starts front (trim_start-starts (keep s)))
