-- ===== src/Ui/Combobox/Settle.antt =====
-- The loading mark of the combobox goes away once what is in flight is answered.
use dopacrm.Base.{
  ◌≡◌, refl, true, false, String, Option, none, some, List, [], ◌∷◌, ℕ, ◌*◌, inl, inr, Bool-cases,
  sym, ◌∙◌,
}
use mathlib.Core.Bool.{false≢true, true≢false}
use dopacrm.Ui.Combobox.{
  Effect, idle, waiting, running, More, Combobox, restart, set_open, set_search, run, finish_run,
  load_more, finish_more, first, Step, toggled, typed, reloaded, fired, loaded, ignored, pressed,
  extended, Reach, mounted, next, Answers,
}

-- Something in flight will end the loading.
abbrev Pending : Effect → List More → Type 0
Pending idle [] = ⊥
Pending _ _ = Unit

Pending-more : (e : Effect) (m : More) (ms : List More) → Pending e (m ∷ ms)
Pending-more idle m ms = tt
Pending-more (waiting q) m ms = tt
Pending-more (running q) m ms = tt

module _ {A : Type 0} where
  abbrev Ends : Combobox A → Type 0
  Ends c = c.is_open ≡ true → c.loading ≡ true → Pending c.effect c.mores

  -- Nothing is marked as loading, and nothing that counts is in flight.
  abbrev pub Rests : Combobox A → Type 0
  Rests c = (c.loading ≡ false) × (c.effect ≡ idle) × (c.mores ≡ [])

  restart-Ends : (c : Combobox A) → Ends (restart c)
  restart-Ends c o l = rw o tt

  finish_run-Ends :
      (n : ℕ) (answer : Option (List A)) (c : Combobox A) → Ends (finish_run n answer c)
  unfolding finish_run
  finish_run-Ends n none c o l = absurd (false≢true l)
  finish_run-Ends n (some batch) c o l = absurd (false≢true l)

  finish_more-Ends :
      (n : ℕ) (m : More) (rest : List More) (answer : Option (List A)) (c : Combobox A)
      → Ends (finish_more n m rest answer c)
  unfolding finish_more
  finish_more-Ends n m rest none c o l = absurd (false≢true l)
  finish_more-Ends n m rest (some batch) c o l = absurd (false≢true l)

module _ {A : Type 0} (page_size : ℕ) (Serves : String → ℕ → List A → Type 0) where
  Step-Ends : {c d : Combobox A} → Step page_size Serves c d → Ends c → Ends d
  unfolding set_open set_search run load_more
  Step-Ends (toggled c b _) h = restart-Ends (record c { is_open = b })
  Step-Ends (typed c v _ _) h = restart-Ends (record c { search = v })
  Step-Ends (reloaded c) h = restart-Ends c
  Step-Ends (fired c q _) h = λ o l. tt
  Step-Ends (loaded c q answer _ _) h = finish_run-Ends page_size answer c
  Step-Ends (ignored c n _) h = h
  Step-Ends (pressed c _) h = λ o l. Pending-more c.effect _ c.mores
  Step-Ends (extended c m rest answer _ _) h = finish_more-Ends page_size m rest answer c

  Reach-Ends : {c : Combobox A} → Reach page_size Serves c → Ends c
  Reach-Ends mounted = λ o l. absurd (false≢true o)
  Reach-Ends (next run step) = Step-Ends step (Reach-Ends run)

  module _ (answers : String → ℕ → Option (List A)) where
    -- The timer runs out and the load of the first page is answered.
    settle_effect : Effect → Combobox A → Combobox A
    settle_effect idle c = c
    settle_effect (waiting q) c = finish_run page_size (answers q 0) (run q c)
    settle_effect (running q) c = finish_run page_size (answers q 0) c

    settle_mores : List More → Combobox A → Combobox A
    settle_mores [] c = c
    settle_mores (m ∷ ms) c =
        settle_mores ms (finish_more page_size m ms (answers m.search (m.next * page_size)) c)

    -- The timer runs out, and what is in flight is answered.
    unfoldable pub settle : Combobox A → Combobox A
    unfolding settle_effect settle_mores
    settle c = settle_mores c.mores (settle_effect c.effect c)

    finish_more-idle :
        (m : More) (rest : List More) (answer : Option (List A)) (c : Combobox A)
        → c.effect ≡ idle
        → ((finish_more page_size m rest answer c).loading ≡ false)
          × ((finish_more page_size m rest answer c).effect ≡ idle)
          × ((finish_more page_size m rest answer c).mores ≡ rest)
    unfolding finish_more
    finish_more-idle m rest none c e = (refl, e, refl)
    finish_more-idle m rest (some batch) c e = (refl, e, refl)

    settle_mores-Rests :
        (ms : List More) (c : Combobox A)
        → c.effect ≡ idle
        → c.mores ≡ ms
        → (c.loading ≡ true → Pending idle ms)
        → Rests (settle_mores ms c)
    unfolding settle_mores
    settle_mores-Rests [] c e f l = elim (Bool-cases c.loading) [
      | inl on ↦ absurd (l on)
      | inr off ↦ (off, e, f)
    ]
    settle_mores-Rests (m ∷ ms) c e f l =
        let (off, quiet, left) =
          finish_more-idle m ms (answers m.search (m.next * page_size)) c e in
        settle_mores-Rests ms _ quiet left (λ on. absurd (true≢false (sym on ∙ off)))

    finish_run-idle :
        (answer : Option (List A)) (c : Combobox A)
        → ((finish_run page_size answer c).loading ≡ false)
          × ((finish_run page_size answer c).effect ≡ idle)
          × ((finish_run page_size answer c).mores ≡ c.mores)
    unfolding finish_run
    finish_run-idle none c = (refl, refl, refl)
    finish_run-idle (some batch) c = (refl, refl, refl)

    settle_effect-idle :
        (e : Effect) (c : Combobox A)
        → c.effect ≡ e
        → (c.loading ≡ true → Pending e c.mores)
        → ((settle_effect e c).effect ≡ idle)
          × ((settle_effect e c).mores ≡ c.mores)
          × ((settle_effect e c).loading ≡ true → Pending idle c.mores)
    unfolding settle_effect run
    settle_effect-idle idle c e l = (e, refl, l)
    settle_effect-idle (waiting q) c e l =
        let (off, quiet, left) = finish_run-idle (answers q 0) (run q c) in
        (quiet, left, λ on. absurd (true≢false (sym on ∙ off)))
    settle_effect-idle (running q) c e l =
        let (off, quiet, left) = finish_run-idle (answers q 0) c in
        (quiet, left, λ on. absurd (true≢false (sym on ∙ off)))

    module _
        (served : (q : String) (offset : ℕ)
          → Answers page_size Serves q offset (answers q offset)) where
      settle_effect-Reach :
          (e : Effect) (c : Combobox A)
          → c.effect ≡ e
          → Reach page_size Serves c
          → Reach page_size Serves (settle_effect e c)
      unfolding settle_effect run
      settle_effect-Reach idle c e r = r
      settle_effect-Reach (waiting q) c e r =
          next (next r (fired c q e)) (loaded (run q c) q (answers q 0) refl (served q 0))
      settle_effect-Reach (running q) c e r = next r (loaded c q (answers q 0) e (served q 0))

      extended-first :
          (m : More) (ms : List More) (c : Combobox A)
          → c.mores ≡ m ∷ ms
          → Reach page_size Serves c
          → Reach page_size Serves
              (finish_more page_size m ms (answers m.search (m.next * page_size)) c)
      extended-first m ms c e r =
          next r (extended c m ms _ (rw e first) (served m.search (m.next * page_size)))

      settle_mores-Reach :
          (ms : List More) (c : Combobox A)
          → c.mores ≡ ms
          → c.effect ≡ idle
          → Reach page_size Serves c
          → Reach page_size Serves (settle_mores ms c)
      unfolding settle_mores
      settle_mores-Reach [] c e _ r = r
      settle_mores-Reach (m ∷ ms) c e quiet r =
          let (_, still, left) =
            finish_more-idle m ms (answers m.search (m.next * page_size)) c quiet in
          settle_mores-Reach ms _ left still (extended-first m ms c e r)

      -- Whatever has happened, if the dropdown is open then the timer may run out and what is in flight be
      -- answered, with items or with errors as `loadItems` gives them; after that the loading mark is gone and
      -- nothing that counts is in flight.
      pub settle-Rests :
          {c : Combobox A}
          → Reach page_size Serves c
          → c.is_open ≡ true
          → Reach page_size Serves (settle c) × Rests (settle c)
      unfolding settle
      settle-Rests {c} r o =
          let (quiet, left, l) = settle_effect-idle c.effect c refl (Reach-Ends r o) in
          (
            settle_mores-Reach c.mores (settle_effect c.effect c) left quiet
                (settle_effect-Reach c.effect c refl r),
            settle_mores-Rests c.mores (settle_effect c.effect c) quiet left l,
          )
