-- ===== src/Base/Decimal/Laws.antt =====
-- The text of a number gives the number back, and has no dash.
use Prim.Native.Nat.{ℕ, zero, suc, ◌+◌, ◌-◌, ◌*◌, ◌/◌, ◌%◌, ◌≤◌, ◌<◌}
use Prim.Native.Char.{code}
use Prim.Native.String.{String, ◌++◌ as ◌<>◌}
use text.Mathlib.TextLemmas.{nil-append, cons-append}
use mathlib.Core.Path.{◌≡◌, refl, sym, ap, ◌∙◌, subst}
use mathlib.Core.Logic.{inl, inr}
use native.Mathlib.Omega.{arith}
use dopacrm.Base.Tests.{ltb, eqb, Bool-cases}
use dopacrm.Base.Lists.{◌&◌}
use dopacrm.Base.Text.{Lacks, Lacks-append}
use dopacrm.Base.Decimal.{digit, decimal_within, decimal}

value_from : ℕ → String → ℕ
value_from acc String.[] = acc
value_from acc (String.◌∷◌ c s) = value_from (acc * 10 + (code c - b'0')) s

value_from-append :
    (acc : ℕ) (s t : String) → value_from acc (s <> t) ≡ value_from (value_from acc s) t
unfolding value_from
value_from-append acc String.[] t = rw nil-append refl
value_from-append acc (String.◌∷◌ c s) t =
    rw cons-append (value_from-append (acc * 10 + (code c - b'0')) s t)

-- The property holds of every number below the bound.
Below : (ℕ → Type 0) → ℕ → Type 0
Below P zero = Unit
Below P (suc n) = P n × Below P n

Below-at : (P : ℕ → Type 0) (n : ℕ) → Below P n → (d : ℕ) → d < n → P d
unfolding Below
Below-at P zero _ d h = absurd (omega arith)
Below-at P (suc n) (p, ps) d h = elim (Bool-cases (eqb d n)) [
  | inl e ↦ let same : n ≡ d = ground arith in subst P same p
  | inr e ↦ Below-at P n ps d (ground arith)
]

-- What a digit adds, and that it is no dash.
abbrev IsDigit : ℕ → Type 0
IsDigit d = ((acc : ℕ) → value_from acc (digit d) ≡ acc * 10 + d) × Lacks b'-' (digit d)

digits : Below IsDigit 10
unfolding Below value_from digit
digits =
    (λ acc. refl, (omega arith, tt))
    & (λ acc. refl, (omega arith, tt))
    & (λ acc. refl, (omega arith, tt))
    & (λ acc. refl, (omega arith, tt))
    & (λ acc. refl, (omega arith, tt))
    & (λ acc. refl, (omega arith, tt))
    & (λ acc. refl, (omega arith, tt))
    & (λ acc. refl, (omega arith, tt))
    & (λ acc. refl, (omega arith, tt))
    & (λ acc. refl, (omega arith, tt))
    & tt

below_ten-IsDigit : (d : ℕ) → d < 10 → IsDigit d
below_ten-IsDigit d h = Below-at IsDigit 10 digits d h

value-decimal_within : (fuel n : ℕ) → n ≤ fuel → value_from 0 (decimal_within fuel n) ≡ n
unfolding decimal_within
value-decimal_within zero n h = (below_ten-IsDigit n (omega arith)).0 0 ∙ omega arith
value-decimal_within (suc fuel) n h = elim (Bool-cases (ltb n 10)) [
  | inl small ↦ rw small ((below_ten-IsDigit n (ground arith)).0 0 ∙ omega arith)
  | inr large ↦
      let rest = value-decimal_within fuel (n / 10) (ground arith) in
      let last =
        (below_ten-IsDigit (n % 10) (omega arith)).0
          (value_from 0 (decimal_within fuel (n / 10))) in
      rw large (
        value_from-append 0 (decimal_within fuel (n / 10)) (digit (n % 10))
        ∙ last
        ∙ omega (arith, rest))
]

decimal_within-Lacks : (fuel n : ℕ) → n ≤ fuel → Lacks b'-' (decimal_within fuel n)
unfolding decimal_within
decimal_within-Lacks zero n h = (below_ten-IsDigit n (omega arith)).1
decimal_within-Lacks (suc fuel) n h = elim (Bool-cases (ltb n 10)) [
  | inl small ↦ rw small (below_ten-IsDigit n (ground arith)).1
  | inr large ↦ rw large (
      Lacks-append b'-' (decimal_within fuel (n / 10)) (digit (n % 10))
        (decimal_within-Lacks fuel (n / 10) (ground arith))
        (below_ten-IsDigit (n % 10) (omega arith)).1)
]

pub decimal-Lacks : (n : ℕ) → Lacks b'-' (decimal n)
unfolding decimal
decimal-Lacks n = decimal_within-Lacks n n (omega arith)

pub decimal-injective : (n m : ℕ) → decimal n ≡ decimal m → n ≡ m
unfolding decimal
decimal-injective n m e =
    sym (value-decimal_within n n (omega arith))
    ∙ ap (value_from 0) e
    ∙ value-decimal_within m m (omega arith)
