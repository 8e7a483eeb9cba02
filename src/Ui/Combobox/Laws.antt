-- ===== src/Ui/Combobox/Laws.antt =====
-- Runs of the combobox in which no load for more is overtaken, and what comes of one that is.
use dopacrm.Base.{
  ◌≡◌, refl, true, false, String, none, some, List, [], ◌∷◌, ◌++◌, ℕ, ◌*◌, inl, arith, ◌==◌,
  string_eq, nat_eq,
}
use mathlib.Core.Option.{none-ne-some}
use mathlib.Core.Bool.{false≢true}
use dopacrm.Ui.Combobox.{
  idle, More, Combobox, set_open, set_search, run, finish_run, load_more, finish_more, shows_more,
  first, Step, toggled, typed, reloaded, fired, loaded, ignored, pressed, extended, Reach, mounted,
  next,
}
use dopacrm.Ui.Combobox.Pages.{
  Pages, IsFit, IsFit-Shown, restart-IsFit, run-IsFit, finish_run-IsFit, load_more-IsFit,
  finish_more-IsFit,
}

module _ {A : Type 0} (page_size : ℕ) (Serves : String → ℕ → List A → Type 0) where
  -- A step that overtakes no load for more: the list is not loaded anew while one is in flight, none begins
  -- before the first page is there, and the load of a first page does not fail.
  abbrev pub IsCalmStep : {c d : Combobox A} → Step page_size Serves c d → Type 0
  IsCalmStep (toggled c b _) = c.mores ≡ []
  IsCalmStep (typed c v _ _) = c.mores ≡ []
  IsCalmStep (reloaded c) = c.mores ≡ []
  IsCalmStep (loaded c q answer _ _) = (batch : List A) × (answer ≡ some batch)
  IsCalmStep (pressed c _) = c.effect ≡ idle
  IsCalmStep _ = Unit

  abbrev pub IsCalm : {c : Combobox A} → Reach page_size Serves c → Type 0
  IsCalm mounted = Unit
  IsCalm (next r step) = IsCalm r × IsCalmStep step

  shows_more-open :
      (c : Combobox A) → shows_more c ≡ true → (c.is_open ≡ true) × (c.loading ≡ false)
  unfolding shows_more
  shows_more-open c h = ground arith

  Step-IsFit :
      {c d : Combobox A} (step : Step page_size Serves c d)
      → IsCalmStep step
      → IsFit page_size Serves c
      → IsFit page_size Serves d
  unfolding set_open set_search run finish_run load_more finish_more
  Step-IsFit (toggled c b _) calm h =
      restart-IsFit page_size Serves (record c { is_open = b }) calm
        (IsFit-Shown page_size Serves c.effect c.mores c calm h)
  Step-IsFit (typed c v _ _) calm h =
      restart-IsFit page_size Serves (record c { search = v }) calm
        (IsFit-Shown page_size Serves c.effect c.mores c calm h)
  Step-IsFit (reloaded c) calm h =
      restart-IsFit page_size Serves c calm (IsFit-Shown page_size Serves c.effect c.mores c calm h)
  Step-IsFit (fired c q e) calm h = run-IsFit page_size Serves q c.mores c (rw e at h)
  Step-IsFit (loaded c q none e served) (batch, fine) h = absurd (none-ne-some batch fine)
  Step-IsFit (loaded c q (some batch) e served) calm h =
      finish_run-IsFit page_size Serves q c.mores c batch served (rw e at h)
  Step-IsFit (ignored c n _) calm h = h
  Step-IsFit (pressed c shown) calm h =
      let (o, off) = shows_more-open c shown in
      rw calm (load_more-IsFit page_size Serves c.mores c o off (rw calm at h))
  Step-IsFit (extended c m rest none pick served) calm h =
      finish_more-IsFit page_size Serves c.effect m c.mores rest none c pick served h
  Step-IsFit (extended c m rest (some batch) pick served) calm h =
      finish_more-IsFit page_size Serves c.effect m c.mores rest (some batch) c pick served h

  Reach-IsFit :
      {c : Combobox A} (r : Reach page_size Serves c) → IsCalm r → IsFit page_size Serves c
  Reach-IsFit mounted calm = ((λ o. absurd (false≢true o)), inl refl)
  Reach-IsFit (next r step) (calm, now) = Step-IsFit step now (Reach-IsFit r calm)

  -- In a run that overtakes no load for more and in which no load of a first page fails, when nothing that
  -- counts is in flight and the dropdown is open, then nothing is marked as loading, and the list holds the pages
  -- of the search in the box, from the first to the one that is counted, each once and in their order.
  pub Reach-Pages :
      {c : Combobox A} (r : Reach page_size Serves c)
      → IsCalm r
      → c.effect ≡ idle
      → c.mores ≡ []
      → c.is_open ≡ true
      → (c.loading ≡ false) × Pages page_size Serves c.search c.page c.items
  Reach-Pages r calm e f o = (rw (e, f) at (Reach-IsFit r calm)).0 o

  -- The state after `search` is changed to `v`, its first page comes, and then what was in flight before.
  abbrev pub overtaken : Combobox A → String → More → List A → List A → Combobox A
  overtaken c v m batch old =
      finish_more page_size m [] (some old)
        (finish_run page_size (some batch) (run v (set_search v c)))

  overtaken-Reach :
      {c : Combobox A} (v : String) (m : More) (batch old : List A)
      → Reach page_size Serves c
      → c.is_open ≡ true
      → (v == c.search) ≡ false
      → c.mores ≡ m ∷ []
      → Serves v 0 batch
      → Serves m.search (m.next * page_size) old
      → Reach page_size Serves (overtaken c v m batch old)
  unfolding set_search run finish_run
  overtaken-Reach {c} v m batch old r o differs f new_served old_served =
      next
        (next (next (next r (typed c v o differs)) (fired (set_search v c) v (rw o refl)))
          (loaded (run v (set_search v c)) v (some batch) refl new_served))
        (extended _ m [] (some old) (rw f first) old_served)

  -- While a load for more is in flight the user types another search, whose first page comes, without an error, before
  -- the load is answered. Then what the load brings is put behind the first page of the new search, the page
  -- is that of the old search, and nothing is marked as loading. The other order of the answers is not considered.
  pub overtaken-Mixed :
      {c : Combobox A} (v : String) (m : More) (batch old : List A)
      → Reach page_size Serves c
      → c.is_open ≡ true
      → (v == c.search) ≡ false
      → c.mores ≡ m ∷ []
      → Serves v 0 batch
      → Serves m.search (m.next * page_size) old
      → Reach page_size Serves (overtaken c v m batch old)
        × ((overtaken c v m batch old).search ≡ v)
        × ((overtaken c v m batch old).items ≡ batch ++ old)
        × ((overtaken c v m batch old).page ≡ m.next)
        × ((overtaken c v m batch old).loading ≡ false)
  unfolding set_search run finish_run finish_more
  overtaken-Mixed v m batch old r o differs f new_served old_served =
      (overtaken-Reach v m batch old r o differs f new_served old_served, refl, refl, refl, refl)
