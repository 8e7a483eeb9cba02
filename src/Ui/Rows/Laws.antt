-- ===== src/Ui/Rows/Laws.antt =====
-- Whatever a list page sends, the server does.
use dopacrm.Base.{
  ◌≡◌, refl, sym, ap, ◌∙◌, true, String, Option, none, some, List, [], ◌∷◌, ℕ, zero, suc, get_elem?,
  is_some, ◌⊎◌, inl, inr, ◌==◌, string_eq, ==_iff, All, Bool-cases, Option-cases,
}
use mathlib.Core.Path.{subst}
use mathlib.Core.Bool.{false≢true}
use mathlib.Core.Option.{none-ne-some, some-injective}
use dopacrm.Ui.Table.{visible}
use dopacrm.Ui.Rows.{
  Click, navigates, asks, sends, ListPage, Rows, put, request_row, request, State, closes, Sends,
  from_menu, from_dialog, Step, done, refused, asked, closed, Reach, loaded, next,
}

navigates-sends : (c : Click) → c ≡ navigates → c ≡ sends → ⊥
navigates-sends c p q = cc

navigates-asks : (c : Click) → c ≡ navigates → c ≡ asks → ⊥
navigates-asks c p q = cc

module _ {A : Type 0} (P : A → Type 0) where
  All-elem : (xs : List A) (i : ℕ) (x : A) → All P xs → get_elem? xs i ≡ some x → P x
  All-elem [] i x h e = absurd (none-ne-some x e)
  All-elem (y ∷ xs) zero x (p, h) e = subst P (some-injective y x e) p
  All-elem (y ∷ xs) (suc i) x (p, h) e = All-elem xs i x h e

module _ (page : ListPage) where
  open page use {Status, Action, row_actions, click, perform, taken, lasting}

  -- The server would do what the dialog asks about.
  abbrev IsReady : Rows page → Option (Action × String) → Type 0
  IsReady rows none = Unit
  IsReady rows (some (a, id)) =
      (s : Status) × (click a ≡ asks) × (rows id ≡ some s) × (is_some (perform a s) ≡ true)

  put-row :
      (a : Action) (id : String) (rows after : Rows page) (found : Option Status)
      → request_row page a id rows found ≡ some after
      → (s t : Status) × (found ≡ some s) × (perform a s ≡ some t) × (put page id t rows ≡ after)
  put-row a id rows after none e = absurd (none-ne-some after e)
  put-row a id rows after (some s) e = elim (Option-cases (perform a s)) [
    | inl nothing ↦ absurd (none-ne-some after (rw nothing at e))
    | inr (t, given) ↦ (s, t, refl, given, some-injective _ after (rw given at e))
  ]

  put-IsReady :
      (a : Action) (id : String) (s t : Status) (rows : Rows page)
      (confirm : Option (Action × String))
      → click a ≡ sends
      → rows id ≡ some s
      → perform a s ≡ some t
      → IsReady rows confirm
      → IsReady (put page id t rows) confirm
  put-IsReady a id s t rows none sent here given h = tt
  put-IsReady a id s t rows (some (b, j)) sent here given (u, ask, there, may) =
      elim (Bool-cases (j == id)) [
        | inl same ↦
            let e : u ≡ s =
              some-injective u s (sym there ∙ ap rows ((==_iff j id).0 same) ∙ here) in
            (
              t,
              ask,
              rw same refl,
              lasting b a s t ask sent (subst (λ v. is_some (perform b v) ≡ true) e may) given,
            )
        | inr apart ↦ (u, ask, rw apart there, may)
      ]

  menu-taken :
      (a : Action) (s : Status) (i : ℕ)
      → get_elem? (visible s row_actions) i ≡ some a
      → (click a ≡ navigates) ⊎ (is_some (perform a s) ≡ true)
  menu-taken a s i shown =
      All-elem (λ a. (click a ≡ navigates) ⊎ (is_some (perform a s) ≡ true)) (visible s row_actions)
        i a (taken s) shown

  row-taken :
      (a : Action) (id : String) (rows : Rows page) (s : Status) (found : Option Status)
      → found ≡ some s
      → is_some (perform a s) ≡ true
      → is_some (request_row page a id rows found) ≡ true
  row-taken a id rows s found here may = elim (Option-cases (perform a s)) [
    | inl nothing ↦ absurd (false≢true (rw nothing at may))
    | inr (t, given) ↦ rw (here, given) refl
  ]

  done-IsReady :
      {p : State page} {a : Action} {id : String} {rows : Rows page}
      → Sends page p a id
      → request page a id p.rows ≡ some rows
      → IsReady p.rows p.confirm
      → IsReady rows (closes page (click a) p.confirm)
  done-IsReady {p} {a} {id} {rows} (from_menu i here shown sent) e h =
      let (s, t, found, given, same) = put-row a id p.rows rows (p.rows id) e in
      rw sent (
        subst (λ r. IsReady r p.confirm) same
          (put-IsReady a id s t p.rows p.confirm sent found given h))
  done-IsReady {p} {a} {id} {rows} (from_dialog shown) e h =
      rw ((subst (λ c. IsReady p.rows c) shown h).1) tt

  Step-IsReady :
      {p q : State page} → Step page p q → IsReady p.rows p.confirm → IsReady q.rows q.confirm
  Step-IsReady (done sent e) h = done-IsReady sent e h
  Step-IsReady (refused sent e) h = h
  Step-IsReady (asked {a = a} {s = s} i here shown ask) h = elim (menu-taken a s i shown) [
    | inl away ↦ elim (navigates-asks (click a) away ask) [ ]
    | inr may ↦ (s, ask, here, may)
  ]
  Step-IsReady closed h = tt

  Reach-IsReady : {p : State page} → Reach page p → IsReady p.rows p.confirm
  Reach-IsReady loaded = tt
  Reach-IsReady (next run step) = Step-IsReady step (Reach-IsReady run)

  -- Whatever the user does on a list page, and in which order, the server does what the page sends.
  pub Sends-request :
      {p : State page} {a : Action} {id : String}
      → Reach page p
      → Sends page p a id
      → is_some (request page a id p.rows) ≡ true
  Sends-request {p} {a} {id} run (from_menu {s = s} i here shown sent) =
      elim (menu-taken a s i shown) [
        | inl away ↦ elim (navigates-sends (click a) away sent) [ ]
        | inr may ↦ row-taken a id p.rows s (p.rows id) here may
      ]
  Sends-request {p} {a} {id} run (from_dialog shown) =
      let (s, ask, here, may) = subst (λ c. IsReady p.rows c) shown (Reach-IsReady run) in
      row-taken a id p.rows s (p.rows id) here may
