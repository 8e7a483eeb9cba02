-- ===== src/Base/Lists.antt =====
-- The array methods of the language, with Boolean tests, and their laws.
use Prim.Native.Nat.{ℕ, zero, suc}
use mathlib.Core.Path.{◌≡◌, refl, subst}
use mathlib.Core.Logic.{◌≢◌, inl, inr}
use mathlib.Core.Bool.{Bool, true, false, ◌&&◌, ◌||◌, false≢true}
use mathlib.Core.Option.{Option, none, some, some-injective}
use mathlib.Core.List.{List, [], ◌∷◌, ◌++◌, map}
use native.Mathlib.Omega.{arith}
use dopacrm.Base.Tests.{if◌then◌else◌, get_or, Bool-cases}
use dopacrm.Base.Equality.{Eq, ◌==◌, ==_refl, ==_iff}

module _ {ℓ} {A : Type ℓ} where
  abbrev pub length : List A → ℕ
  length [] = 0
  length (x ∷ xs) = suc (length xs)

  abbrev pub get_elem? : List A → ℕ → Option A
  get_elem? [] i = none
  get_elem? (x ∷ xs) zero = some x
  get_elem? (x ∷ xs) (suc i) = get_elem? xs i

  -- `xs.filter(p)`
  abbrev pub filter : (A → Bool) → List A → List A
  filter p [] = []
  filter p (x ∷ xs) = let rest = filter p xs in if p x then x ∷ rest else rest

  -- `xs.find(p)`
  abbrev pub find : (A → Bool) → List A → Option A
  find p [] = none
  find p (x ∷ xs) = let rest = find p xs in if p x then some x else rest

  abbrev pub take : ℕ → List A → List A
  take zero xs = []
  take (suc n) [] = []
  take (suc n) (x ∷ xs) = x ∷ take n xs

  abbrev pub drop : ℕ → List A → List A
  drop zero xs = xs
  drop (suc n) [] = []
  drop (suc n) (x ∷ xs) = drop n xs

  abbrev pub all : (A → Bool) → List A → Bool
  all p [] = true
  all p (x ∷ xs) = p x && all p xs

module _ {ℓ κ} {A : Type ℓ} (P : A → Type κ) where
  abbrev pub All : List A → Type κ
  All [] = Unit
  All (x ∷ xs) = P x × All xs

-- A proof of `All P (x ∷ xs)`, without a ladder of brackets.
infixr 3 ◌&◌
abbrev pub ◌&◌ {ℓ κ} : {X : Type ℓ} {Y : Type κ} → X → Y → X × Y
x & y = (x, y)

module _ {ℓ κ μ} {A : Type ℓ} {P : A → Type κ} {Q : A → Type μ} where
  pub All-map : ((x : A) → P x → Q x) → (xs : List A) → All P xs → All Q xs
  All-map f [] _ = tt
  All-map f (x ∷ xs) (p, h) = (f x p, All-map f xs h)

module _ {ℓ κ} {A : Type ℓ} (P : A → Type κ) where
  pub All-get_or : (xs : List A) (i : ℕ) {d : A} → All P xs → P d → P (get_or (get_elem? xs i) d)
  All-get_or [] i _ q = q
  All-get_or (x ∷ xs) zero (p, _) q = p
  All-get_or (x ∷ xs) (suc i) (_, h) q = All-get_or xs i h q

module _ {ℓ κ} {A : Type ℓ} (P : A → Type κ) where
  pub All-get_elem? : (xs : List A) (i : ℕ) {a : A} → get_elem? xs i ≡ some a → All P xs → P a
  All-get_elem? [] i e _ = cc
  All-get_elem? (x ∷ xs) zero e (p, _) = subst P (some-injective x _ e) p
  All-get_elem? (x ∷ xs) (suc i) e (_, h) = All-get_elem? xs i e h

module _ {ℓ κ} {A : Type ℓ} (P : A → Type κ) where
  -- What passes a filter also passes its test.
  pub All-filter :
      (p : A → Bool) (xs : List A) → All P xs → All (λ a. P a × (p a ≡ true)) (filter p xs)
  All-filter p [] h = tt
  All-filter p (x ∷ xs) (q, h) = elim (Bool-cases (p x)) [
    | inl keep ↦ rw keep ((q, keep), All-filter p xs h)
    | inr drop ↦ rw drop (All-filter p xs h)
  ]

module _ {ℓ} {A : Type ℓ} ⦃e : Eq A⦄ where
  -- `xs.includes(a)`
  abbrev pub includes : List A → A → Bool
  includes [] a = false
  includes (x ∷ xs) a = x == a || includes xs a

  pub includes-append :
      (xs ys : List A) (a : A) → includes (xs ++ ys) a ≡ (includes xs a || includes ys a)
  includes-append [] ys a = refl
  includes-append (x ∷ xs) ys a = ground (arith, includes-append xs ys a)

  pub includes-filter :
      (p : A → Bool) (xs : List A) (a : A) → includes (filter p xs) a ≡ (includes xs a && p a)
  includes-filter p [] a = refl
  includes-filter p (x ∷ xs) a = ground (arith, includes-filter p xs a)

module _ {ℓ κ} {A : Type ℓ} {B : Type κ} ⦃e : Eq A⦄ ⦃d : Eq B⦄ where
  pub includes-map :
      (f : A → B)
      → ((a b : A) → f a ≡ f b → a ≡ b)
      → (xs : List A) (a : A) → includes (map f xs) (f a) ≡ includes xs a
  includes-map f inj [] a = refl
  includes-map f inj (x ∷ xs) a = elim (e.dec x a) [
    | yes p ↦ rw (p, ==_refl a, ==_refl (f a)) refl
    | no n ↦ let apart : f x ≢ f a = λ p. n (inj x a p) in ground (arith, includes-map f inj xs a)
  ]

module _ {ℓ κ} {K : Type ℓ} {V : Type κ} ⦃e : Eq K⦄ where
  -- `m[k]`, `undefined` for a key that is not there
  abbrev pub lookup : K → List (K × V) → Option V
  lookup k [] = none
  lookup k ((j, v) ∷ m) = if j == k then some v else lookup k m

module _ {ℓ κ μ} {A : Type ℓ} {B : Type κ} ⦃d : Eq B⦄ (P : A → Type μ) where
  -- A value that a list of names includes is the name of an element.
  pub All-includes :
      (f : A → B) (xs : List A) (v : B)
      → All P xs
      → includes (map f xs) v ≡ true
      → (a : A) × (f a ≡ v) × P a
  All-includes f [] v h e = absurd (false≢true e)
  All-includes f (x ∷ xs) v (q, h) e = elim (Bool-cases (f x == v)) [
    | inl same ↦ (x, (==_iff (f x) v).0 same, q)
    | inr other ↦ All-includes f xs v h (rw other at e)
  ]
