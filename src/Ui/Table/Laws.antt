-- ===== src/Ui/Table/Laws.antt =====
-- The menu of a row.
use dopacrm.Base.{
  ◌≡◌, refl, sym, ap, ◌∙◌, ◌||◌, ◌+◌, ◌<◌, ℕ, zero, suc, eqb, arith, some, Bool, true, false, not,
  List, [], ◌∷◌, ◌++◌, filter, All, Bool-cases, inl, inr, if◌then◌else◌,
}
use mathlib.Core.Path.{subst}
use mathlib.Core.Option.{none-ne-some, some-injective}
use mathlib.Core.List.{Perm}
use mathlib.Core.List.Perm
use dopacrm.Ui.Table.{RowAction, visible, Column, rest_from, nth, find_primary, card_columns}

module _ {T A : Type 0} (P : A → Type 0) where
  -- What holds of each action that is not hidden holds of the whole menu.
  pub All-visible :
      (row : T) (actions : List (RowAction T A))
      → All (λ a. a.hidden row ≡ false → P a.act) actions
      → All P (visible row actions)
  All-visible row [] h = tt
  All-visible row (a ∷ others) (p, h) = elim (Bool-cases (a.hidden row)) [
    | inl gone ↦ rw gone (All-visible row others h)
    | inr there ↦ rw there (p there, All-visible row others h)
  ]

if_on : {A : Type 0} (b : Bool) (x y : A) → b ≡ true → (if b then x else y) ≡ x
if_on b x y h = rw h refl

if_off : {A : Type 0} (b : Bool) (x y : A) → b ≡ false → (if b then x else y) ≡ y
if_off b x y h = rw h refl

or_right : (a b : Bool) → b ≡ true → (a || b) ≡ true
or_right a b h = ground arith

-- The columns that a card shows, if it shows the primary one anyway.
abbrev pub kept : {T : Type 0} → List (Column T) → List (Column T)
kept columns = filter (λ c. not c.hide_on_mobile) columns

module _ {T : Type 0} where
  kept-stays :
      (c : Column T) (cs : List (Column T)) → c.hide_on_mobile ≡ false → kept (c ∷ cs) ≡ c ∷ kept cs
  kept-stays c cs h = if_on (not c.hide_on_mobile) (c ∷ kept cs) (kept cs) (ap not h)

  kept-gone :
      (c : Column T) (cs : List (Column T)) → c.hide_on_mobile ≡ true → kept (c ∷ cs) ≡ kept cs
  kept-gone c cs h = if_off (not c.hide_on_mobile) (c ∷ kept cs) (kept cs) (ap not h)

  rest_from-stays :
      (i primary : ℕ) (c : Column T) (cs : List (Column T))
      → eqb i primary ≡ false
      → c.hide_on_mobile ≡ false
      → rest_from i primary (c ∷ cs) ≡ c ∷ rest_from (suc i) primary cs
  rest_from-stays i primary c cs e h =
      if_off (eqb i primary || c.hide_on_mobile) (rest_from (suc i) primary cs)
        (c ∷ rest_from (suc i) primary cs) (rw (e, h) refl)

  rest_from-primary :
      (i primary : ℕ) (c : Column T) (cs : List (Column T))
      → eqb i primary ≡ true
      → rest_from i primary (c ∷ cs) ≡ rest_from (suc i) primary cs
  rest_from-primary i primary c cs e =
      if_on (eqb i primary || c.hide_on_mobile) (rest_from (suc i) primary cs)
        (c ∷ rest_from (suc i) primary cs) (rw e refl)

  rest_from-gone :
      (i primary : ℕ) (c : Column T) (cs : List (Column T))
      → c.hide_on_mobile ≡ true
      → rest_from i primary (c ∷ cs) ≡ rest_from (suc i) primary cs
  rest_from-gone i primary c cs h =
      if_on (eqb i primary || c.hide_on_mobile) (rest_from (suc i) primary cs)
        (c ∷ rest_from (suc i) primary cs) (or_right (eqb i primary) c.hide_on_mobile h)

  rest_from-kept :
      (i primary : ℕ) (cs : List (Column T)) → primary < i → rest_from i primary cs ≡ kept cs
  rest_from-kept i primary [] h = refl
  rest_from-kept i primary (c ∷ cs) h = elim (Bool-cases c.hide_on_mobile) [
    | inl gone ↦
        rest_from-gone i primary c cs gone
        ∙ rest_from-kept (suc i) primary cs (omega arith)
        ∙ sym (kept-gone c cs gone)
    | inr stays ↦
        rest_from-stays i primary c cs (ground arith) stays
        ∙ ap (λ r. c ∷ r) (rest_from-kept (suc i) primary cs (omega arith))
        ∙ sym (kept-stays c cs stays)
  ]

  rest_from-perm :
      (i k : ℕ) (cs : List (Column T)) (title : Column T)
      → nth cs k ≡ some title
      → title.hide_on_mobile ≡ false
      → Perm (title ∷ rest_from i (i + k) cs) (kept cs)
  rest_from-perm i k [] title e h = absurd (none-ne-some title e)
  rest_from-perm i zero (c ∷ cs) title e h =
      let same : c ≡ title = some-injective c title e in
      let shown : c.hide_on_mobile ≡ false = subst (λ x. x.hide_on_mobile ≡ false) (sym same) h in
      subst (λ l. Perm l (kept (c ∷ cs)))
        (kept-stays c cs shown
          ∙ ap (λ x. x ∷ kept cs) same
          ∙ ap (λ l. title ∷ l)
              (sym (
                rest_from-primary i (i + 0) c cs (ground arith)
                ∙ rest_from-kept (suc i) (i + 0) cs (omega arith))))
        (Perm.refl (kept (c ∷ cs)))
  rest_from-perm i (suc k) (c ∷ cs) title e h =
      let moved : i + suc k ≡ suc i + k = omega arith in
      let rest = rest_from-perm (suc i) k cs title e h in
      let onward = subst (λ n. Perm (title ∷ rest_from (suc i) n cs) (kept cs)) (sym moved) rest in
      elim (Bool-cases c.hide_on_mobile) [
        | inl gone ↦
            subst (λ l. Perm (title ∷ rest_from i (i + suc k) (c ∷ cs)) l)
              (sym (kept-gone c cs gone))
              (subst (λ l. Perm (title ∷ l) (kept cs))
                (sym (rest_from-gone i (i + suc k) c cs gone)) onward)
        | inr stays ↦
            subst (λ l. Perm (title ∷ rest_from i (i + suc k) (c ∷ cs)) l)
              (sym (kept-stays c cs stays))
              (subst (λ l. Perm (title ∷ l) (c ∷ kept cs))
                (sym (rest_from-stays i (i + suc k) c cs (ground arith) stays))
                (Perm.trans (Perm.swap c title (rest_from (suc i) (i + suc k) cs))
                  (Perm.cons c onward)))
      ]

  -- The first column that is marked as primary is the one that `find_primary` finds.
  find_primary-first :
      (before after : List (Column T)) (title : Column T)
      → All (λ c. c.primary_mobile ≡ false) before
      → title.primary_mobile ≡ true
      → (k : ℕ) × (find_primary (before ++ (title ∷ after)) ≡ some k)
        × (nth (before ++ (title ∷ after)) k ≡ some title)
  find_primary-first [] after title none_before marked = (0, rw marked refl, refl)
  find_primary-first (c ∷ cs) after title (plain, others) marked =
      let (k, found, there) = find_primary-first cs after title others marked in
      (suc k, rw (plain, found) refl, there)

  titled :
      (columns : List (Column T)) (title : Column T) (k : ℕ)
      → find_primary columns ≡ some k
      → nth columns k ≡ some title
      → title.hide_on_mobile ≡ false
      → ((card_columns columns).0 ≡ some title)
        × Perm (title ∷ (card_columns columns).1) (kept columns)
  titled columns title k found there h =
      let start : 0 + k ≡ k = omega arith in
      rw found (
        there,
        subst (λ n. Perm (title ∷ rest_from 0 n columns) (kept columns)) start
            (rest_from-perm 0 k columns title there h),
      )

  -- The first column of a table that is marked as primary is not hidden on a phone. Then a card has it as its title, and
  -- shows with it the other columns that are not hidden, each once.
  pub card_columns-perm :
      (before after : List (Column T)) (title : Column T)
      → All (λ c. c.primary_mobile ≡ false) before
      → title.primary_mobile ≡ true
      → title.hide_on_mobile ≡ false
      → ((card_columns (before ++ (title ∷ after))).0 ≡ some title)
        × Perm
            (title ∷ (card_columns (before ++ (title ∷ after))).1)
            (kept (before ++ (title ∷ after)))
  card_columns-perm before after title none_before marked h =
      let (k, found, there) = find_primary-first before after title none_before marked in
      titled (before ++ (title ∷ after)) title k found there h
