-- ===== src/Base/Scan.antt =====
-- `s.trim()`, `s || null`, and `parseInt(s, 10)` on the value of a number input.
use Prim.Native.Nat.{ℕ, suc, ◌+◌, ◌-◌, ◌*◌, ◌≤◌}
use Prim.Native.Char.{code}
use Prim.Native.String.{String}
use mathlib.Core.Path.{◌≡◌, refl}
use mathlib.Core.Logic.{inl, inr}
use mathlib.Core.Bool.{Bool, true, false, ◌&&◌, ◌||◌}
use mathlib.Core.Option.{Option, none, some}
use native.Mathlib.Omega.{arith}
use dopacrm.Base.Tests.{leb, eqb, if◌then◌else◌, get_or, Bool-cases}
use dopacrm.Base.Equality.{◌==◌, ==_ne, string_eq}
use dopacrm.Base.Integers.{ℤ, pos, neg}

-- White space and line ends.
abbrev pub is_space : ℕ → Bool
is_space n =
    leb 9 n && leb n 13
    || eqb n 32
    || eqb n 160
    || eqb n 5760
    || leb 8192 n && leb n 8202
    || eqb n 8232
    || eqb n 8233
    || eqb n 8239
    || eqb n 8287
    || eqb n 12288
    || eqb n 65279

unfoldable pub trim_start : String → String
trim_start String.[] = ""
trim_start (String.◌∷◌ c s) =
    let rest = trim_start s in if is_space (code c) then rest else String.◌∷◌ c s

unfoldable pub trim_end : String → String
trim_end String.[] = ""
trim_end (String.◌∷◌ c s) =
    let rest = trim_end s in if is_space (code c) && rest == "" then "" else String.◌∷◌ c rest

unfoldable pub trim : String → String
unfolding trim_start trim_end string_eq
trim s = trim_end (trim_start s)

trim_padded : trim "  a b " ≡ "a b"
unfolding trim
trim_padded = refl

-- The number of characters.
abbrev pub size : String → ℕ
size String.[] = 0
size (String.◌∷◌ c s) = suc (size s)

pub size-positive : (s : String) → (s == "") ≡ false → leb 1 (size s) ≡ true
unfolding string_eq
size-positive String.[] h = absurd (==_ne {A = String} ⦃e = string_eq⦄ "" "" h refl)
size-positive (String.◌∷◌ c s) h = ground arith

-- `v || null`
unfoldable pub or_null : String → Option String
unfolding string_eq
or_null v = if v == "" then none else some v

-- `max_length` of a text that may be missing
abbrev pub fits : ℕ → Option String → Bool
fits most none = true
fits most (some s) = leb (size s) most

pub fits-or_null : (most : ℕ) (s : String) → size s ≤ most → fits most (or_null s) ≡ true
unfolding or_null
fits-or_null most s h = elim (Bool-cases (s == "")) [
  | inl empty ↦ rw empty refl
  | inr there ↦ rw there (ground (arith, h))
]

-- What `parseInt` gives: a whole number, or `NaN`.
pub data Number : Type 0 where
  nan : Number
  whole : ℤ → Number

abbrev is_digit : ℕ → Bool
is_digit n = leb 48 n && leb n 57

-- The digits at the front, after those already read.
digits : Option ℕ → String → Option ℕ
digits read String.[] = read
digits read (String.◌∷◌ c s) =
    let more = digits (some (10 * get_or read 0 + (code c - 48))) s in
    if is_digit (code c) then more else read

abbrev signed : (ℕ → ℤ) → Option ℕ → Number
signed f none = nan
signed f (some n) = whole (f n)

-- The value of a number input is a number's text or empty: it has no white space and no plus sign in front.
unfoldable pub parse_int : String → Number
unfolding digits
parse_int String.[] = nan
parse_int (String.◌∷◌ c s) =
    if eqb (code c) 45
    then signed (λ n. neg (pos n)) (digits none s)
    else signed pos (digits none (String.◌∷◌ c s))

parse_int_30 : parse_int "30" ≡ whole (pos 30)
unfolding parse_int
parse_int_30 = refl

parse_int_minus : parse_int "-2.5" ≡ whole (neg (pos 2))
unfolding parse_int
parse_int_minus = refl

parse_int_point : parse_int ".5" ≡ nan
unfolding parse_int
parse_int_point = refl
