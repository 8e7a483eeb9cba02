-- ===== src/Base/Text.antt =====
-- Texts cut at a character: `s.split(sep)`, and when it finds what was joined.
use Prim.Native.Nat.{ℕ}
use Prim.Native.Char.{Char, code}
use Prim.Native.String.{String, ◌++◌ as ◌<>◌}
use text.Mathlib.TextLemmas.{nil-append, cons-append, append-nil, append_assoc}
use mathlib.Core.Path.{◌≡◌, sym, ap, ◌∙◌}
use mathlib.Core.Logic.{◌≢◌}
use mathlib.Core.List.{List, [], ◌∷◌}
use native.Mathlib.Omega.{arith}
use dopacrm.Base.Tests.{eqb, if◌then◌else◌}

-- No character of the text is the one with this code.
abbrev pub Lacks : ℕ → String → Type 0
Lacks n String.[] = Unit
Lacks n (String.◌∷◌ c s) = (code c ≢ n) × Lacks n s

-- `s.split(sep)`, for a separator of one character
pub split_from : ℕ → String → String → List String
split_from sep cur String.[] = cur ∷ []
split_from sep cur (String.◌∷◌ c s) =
    let closed = split_from sep "" s in
    let longer = split_from sep (cur <> String.◌∷◌ c String.[]) s in
    if eqb (code c) sep then cur ∷ closed else longer

unfoldable pub split : ℕ → String → List String
split sep s = split_from sep "" s

pub Lacks-append : (n : ℕ) (s t : String) → Lacks n s → Lacks n t → Lacks n (s <> t)
Lacks-append n String.[] t _ k = rw nil-append k
Lacks-append n (String.◌∷◌ c s) t (p, h) k = rw cons-append (p, Lacks-append n s t h k)

split_from-skip :
    (n : ℕ) (cur : String) (c : Char) (t : String)
    → code c ≢ n
    → split_from n cur (String.◌∷◌ c t) ≡ split_from n (cur <> String.◌∷◌ c String.[]) t
unfolding split_from
split_from-skip n cur c t e = ground arith

pub split_from-append :
    (n : ℕ) (cur s t : String) → Lacks n s → split_from n cur (s <> t) ≡ split_from n (cur <> s) t
split_from-append n cur String.[] t h = rw (nil-append, append-nil)
split_from-append n cur (String.◌∷◌ c s) t (p, h) = rw cons-append (
    split_from-skip n cur c (s <> t) p
    ∙ split_from-append n (cur <> String.◌∷◌ c String.[]) s t h
    ∙ ap (λ r. split_from n r t) (rw (append_assoc, cons-append, nil-append)))

pub split_from-sep :
    (n : ℕ) (cur : String) (c : Char) (t : String)
    → code c ≡ n
    → split_from n cur (String.◌∷◌ c t) ≡ cur ∷ split n t
unfolding split_from split
split_from-sep n cur c t e = ground arith

pub split_from-last : (n : ℕ) (cur s : String) → Lacks n s → split_from n cur s ≡ (cur <> s) ∷ []
unfolding split_from
split_from-last n cur s h =
    ap (split_from n cur) (sym (append-nil s)) ∙ split_from-append n cur s "" h
