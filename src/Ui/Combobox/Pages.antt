-- ===== src/Ui/Combobox/Pages.antt =====
-- What the list of the combobox shows while no load for more is overtaken.
use dopacrm.Base.{
  ◌≡◌, refl, sym, ◌∙◌, Bool, true, false, String, Option, none, some, List, [], ◌∷◌, ◌++◌, ℕ, suc,
  ◌*◌, ◌⊎◌, inl, inr, Bool-cases,
}
use mathlib.Core.Path.{subst}
use mathlib.Core.Bool.{false≢true, true≢false}
use dopacrm.Ui.Combobox.{
  Effect, idle, waiting, running, More, Combobox, restart, finish_more, Pick, first, later, Answers,
}

module _ {A : Type 0} (page_size : ℕ) (Serves : String → ℕ → List A → Type 0) where
  -- The pages of one search, from the first to the one with this number, each as it was served.
  pub data Pages (q : String) : ℕ → List A → Type 0 where
    one : {batch : List A} → Serves q 0 batch → Pages q 0 batch
    more :
        {n : ℕ} {items batch : List A}
        → Pages q n items
        → Serves q (suc n * page_size) batch
        → Pages q (suc n) (items ++ batch)

  -- Nothing is shown, or the pages of one search.
  abbrev pub Shown : ℕ → List A → Type 0
  Shown page items = (items ≡ []) ⊎ ((q : String) × Pages q page items)

  -- What holds in a state, by what is in flight.
  abbrev pub Fits : Effect → List More → Bool → String → ℕ → List A → Bool → Type 0
  Fits idle [] is_open search page items loading =
      (is_open ≡ true → (loading ≡ false) × Pages search page items) × Shown page items
  Fits idle (m ∷ []) is_open search page items loading =
      (m.search ≡ search) × (m.next ≡ suc page) × (loading ≡ true) × Pages search page items
  Fits idle (m ∷ n ∷ ms) is_open search page items loading = ⊥
  Fits (waiting q) [] is_open search page items loading = (q ≡ search) × Shown page items
  Fits (waiting q) (m ∷ ms) is_open search page items loading = ⊥
  Fits (running q) [] is_open search page items loading =
      (q ≡ search) × (loading ≡ true) × Shown page items
  Fits (running q) (m ∷ ms) is_open search page items loading = ⊥

  abbrev pub IsFit : Combobox A → Type 0
  IsFit c = Fits c.effect c.mores c.is_open c.search c.page c.items c.loading

  pub IsFit-Shown :
      (e : Effect) (ms : List More) (c : Combobox A)
      → ms ≡ []
      → Fits e ms c.is_open c.search c.page c.items c.loading
      → Shown c.page c.items
  IsFit-Shown idle [] c _ (_, s) = s
  IsFit-Shown idle (m ∷ []) c _ (_, _, _, p) = inr (c.search, p)
  IsFit-Shown idle (m ∷ n ∷ ms) c _ h = elim h [ ]
  IsFit-Shown (waiting r) [] c _ (_, s) = s
  IsFit-Shown (waiting r) (m ∷ ms) c _ h = elim h [ ]
  IsFit-Shown (running r) [] c _ (_, _, s) = s
  IsFit-Shown (running r) (m ∷ ms) c _ h = elim h [ ]

  pub restart-IsFit : (c : Combobox A) → c.mores ≡ [] → Shown c.page c.items → IsFit (restart c)
  restart-IsFit c none_left s = elim (Bool-cases c.is_open) [
    | inl o ↦ rw (o, none_left) (refl, s)
    | inr shut ↦ rw (shut, none_left) ((λ o. absurd (false≢true o)), s)
  ]

  pub run-IsFit :
      (q : String) (ms : List More) (c : Combobox A)
      → Fits (waiting q) ms c.is_open c.search c.page c.items c.loading
      → Fits (running q) ms c.is_open c.search c.page c.items true
  run-IsFit q [] c (e, s) = (e, refl, s)
  run-IsFit q (m ∷ ms) c h = elim h [ ]

  pub finish_run-IsFit :
      (q : String) (ms : List More) (c : Combobox A) (batch : List A)
      → Serves q 0 batch
      → Fits (running q) ms c.is_open c.search c.page c.items c.loading
      → Fits idle ms c.is_open c.search 0 batch false
  finish_run-IsFit q [] c batch served (e, _, _) =
      ((λ _. (refl, one (subst (λ q. Serves q 0 batch) e served))), inr (q, one served))
  finish_run-IsFit q (m ∷ ms) c batch served h = elim h [ ]

  pub load_more-IsFit :
      (ms : List More) (c : Combobox A)
      → c.is_open ≡ true
      → c.loading ≡ false
      → Fits idle ms c.is_open c.search c.page c.items c.loading
      → Fits idle
          (record { search = c.search; next = suc c.page } ∷ ms)
          c.is_open
          c.search
          c.page
          c.items
          true
  load_more-IsFit [] c o l (h, _) = (refl, refl, refl, (h o).1)
  load_more-IsFit (m ∷ []) c o l (_, _, on, _) = absurd (true≢false (sym on ∙ l))
  load_more-IsFit (m ∷ n ∷ ms) c o l h = elim h [ ]

  pub finish_more-IsFit :
      (e : Effect) (m : More) (ms rest : List More) (answer : Option (List A)) (c : Combobox A)
      → Pick m ms rest
      → Answers page_size Serves m.search (m.next * page_size) answer
      → Fits e ms c.is_open c.search c.page c.items c.loading
      → let d = finish_more page_size m rest answer c in
        Fits e rest d.is_open d.search d.page d.items d.loading
  unfolding finish_more
  finish_more-IsFit idle m _ [] none c first served (q, n, on, p) =
      ((λ _. (refl, p)), inr (c.search, p))
  finish_more-IsFit idle m _ [] (some batch) c first served (q, n, on, p) =
      let pages : Pages c.search m.next (c.items ++ batch) =
        subst (λ k. Pages c.search k (c.items ++ batch)) (sym n) (more p (rw (q, n) at served)) in
      ((λ _. (refl, pages)), inr (c.search, pages))
  finish_more-IsFit idle m _ (k ∷ rest) answer c first served h = elim h [ ]
  finish_more-IsFit idle m _ _ answer c (later {ms = []} p) served h = elim p [ ]
  finish_more-IsFit idle m _ _ answer c (later {ms = k ∷ ms} p) served h = elim h [ ]
  finish_more-IsFit (waiting r) m _ rest answer c first served h = elim h [ ]
  finish_more-IsFit (waiting r) m _ _ answer c (later p) served h = elim h [ ]
  finish_more-IsFit (running r) m _ rest answer c first served h = elim h [ ]
  finish_more-IsFit (running r) m _ _ answer c (later p) served h = elim h [ ]
