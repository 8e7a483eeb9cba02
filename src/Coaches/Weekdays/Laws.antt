-- ===== src/Coaches/Weekdays/Laws.antt =====
-- The buttons keep the days as the server wants them.
use dopacrm.Base.{
  ◌≡◌, refl, sym, ◌∙◌, Bool, true, not, ◌&&◌, String, List, [], ◌∷◌, ◌++◌, filter, includes, all,
  ◌==◌, string_eq, includes-append, includes-filter, ==_iff, ==_ne, Bool-cases, inl, inr, arith,
}
use dopacrm.Coaches.Weekdays.{weekdays_codes, toggle, all_different, valid_weekdays}

all-filter : (q p : String → Bool) (xs : List String) → all q xs ≡ true → all q (filter p xs) ≡ true
all-filter q p [] h = refl
all-filter q p (x ∷ xs) h = ground (arith, all-filter q p xs)

all-append : (q : String → Bool) (xs ys : List String) → all q (xs ++ ys) ≡ (all q xs && all q ys)
all-append q [] ys = refl
all-append q (x ∷ xs) ys = ground (arith, all-append q xs ys)

all_different-filter :
    (p : String → Bool) (xs : List String)
    → all_different xs ≡ true
    → all_different (filter p xs) ≡ true
unfolding all_different
all_different-filter p [] h = refl
all_different-filter p (x ∷ xs) h =
    ground (arith, includes-filter p xs x, all_different-filter p xs)

==_swap : (a b : String) → (a == b) ≡ (b == a)
==_swap a b = elim (Bool-cases (a == b)) [
  | inl p ↦ p ∙ sym ((==_iff b a).1 (sym ((==_iff a b).0 p)))
  | inr n ↦ elim (Bool-cases (b == a)) [
    | inl q ↦ absurd (==_ne a b n (sym ((==_iff b a).0 q)))
    | inr m ↦ n ∙ sym m
  ]
]

all_different-snoc :
    (xs : List String) (c : String)
    → all_different (xs ++ (c ∷ [])) ≡ (all_different xs && not (includes xs c))
unfolding all_different
all_different-snoc [] c = refl
all_different-snoc (x ∷ xs) c =
    ground (arith, includes-append xs (c ∷ []) x, all_different-snoc xs c, ==_swap c x)

pub toggle-valid_weekdays :
    (disabled : Bool) (code : String) (value : List String)
    → includes weekdays_codes code ≡ true
    → valid_weekdays value ≡ true
    → valid_weekdays (toggle disabled code value) ≡ true
unfolding toggle valid_weekdays
toggle-valid_weekdays disabled code value known h = ground (
  arith,
  all-filter (λ w. includes weekdays_codes w) (λ w. not (w == code)) value,
  all-append (λ w. includes weekdays_codes w) value (code ∷ []),
  all_different-filter (λ w. not (w == code)) value,
  all_different-snoc value code,
)
