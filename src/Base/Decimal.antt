-- ===== src/Base/Decimal.antt =====
-- `String(n)` and `${n}` for a natural number.
pub mod Laws
use Prim.Native.Nat.{ℕ, zero, suc, ◌/◌, ◌%◌}
use Prim.Native.String.{String, ◌++◌ as ◌<>◌}
use mathlib.Core.Path.{◌≡◌, refl}
use dopacrm.Base.Tests.{ltb, eqb, if◌then◌else◌}

digit : ℕ → String
digit d =
    if eqb d 0
    then "0"
    else if eqb d 1
    then "1"
    else if eqb d 2
    then "2"
    else if eqb d 3
    then "3"
    else if eqb d 4
    then "4"
    else if eqb d 5
    then "5"
    else if eqb d 6
    then "6"
    else if eqb d 7
    then "7"
    else if eqb d 8
    then "8"
    else "9"

-- Each round drops a digit, so that `n` rounds are enough for `n`.
decimal_within : ℕ → ℕ → String
decimal_within zero n = digit n
decimal_within (suc fuel) n =
    let rest = decimal_within fuel (n / 10) in if ltb n 10 then digit n else rest <> digit (n % 10)

unfoldable pub decimal : ℕ → String
unfolding digit decimal_within
decimal n = decimal_within n n

decimal_504 : decimal 504 ≡ "504"
unfolding decimal
decimal_504 = refl
