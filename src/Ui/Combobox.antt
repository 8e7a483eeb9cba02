-- ===== src/Ui/Combobox.antt =====
-- frontend/src/components/ui/async-combobox.tsx: the state of the dropdown and the loads in flight. The items of
-- the list are of any type, as in the source.
pub mod Settle
pub mod Pages
pub mod Laws
use dopacrm.Base.{
  ◌≡◌, Bool, true, false, not, ◌&&◌, String, Option, none, some, List, [], ◌∷◌, ◌++◌, ℕ, zero, suc,
  ◌*◌, length, ◌==◌, string_eq, bool_eq, eqb, if◌then◌else◌,
}

-- The effect that loads the first page, with the search of its closure: its timer runs, or its load is in
-- flight. An effect that has been cleaned up, or whose load is back, is `idle`.
pub data Effect : Type 0 where
  idle : Effect
  waiting running : String → Effect

-- A call of `loadMore` in flight, with the search and the page of its closure.
pub record More : Type 0 where
  pub search : String
  pub next : ℕ

pub record Combobox (A : Type 0) : Type 0 where
  pub is_open : Bool
  pub search : String
  pub items : List A
  pub page : ℕ
  pub loading : Bool
  pub has_more : Bool
  pub effect : Effect
  -- loads of effects that were cleaned up, still in flight
  pub cancelled : ℕ
  pub mores : List More

-- One call of a list of calls in flight, and the others.
pub data Pick : More → List More → List More → Type 0 where
  first : {m : More} {ms : List More} → Pick m (m ∷ ms) ms
  later : {m n : More} {ms rest : List More} → Pick m ms rest → Pick m (n ∷ ms) (n ∷ rest)

-- A load in flight of an effect that is cleaned up is one more that is cancelled.
abbrev pub stop : Effect → ℕ → ℕ
stop idle n = n
stop (waiting q) n = n
stop (running q) n = suc n

module _ {A : Type 0} where
  abbrev pub initial : Combobox A
  initial = record {
    is_open = false;
    search = "";
    items = [];
    page = 0;
    loading = false;
    has_more = false;
    effect = idle;
    cancelled = 0;
    mores = [];
  }

  -- The effect of [open, search, loadItems, pageSize]: the old one is cleaned up, and a new one waits if the
  -- dropdown is open.
  abbrev pub restart : Combobox A → Combobox A
  restart c = record c {
    effect = if c.is_open then waiting c.search else idle;
    cancelled = stop c.effect c.cancelled;
  }

  -- `setOpen`
  unfoldable pub set_open : Bool → Combobox A → Combobox A
  set_open b c = restart (record c { is_open = b })

  -- `setSearch`
  unfoldable pub set_search : String → Combobox A → Combobox A
  set_search v c = restart (record c { search = v })

  -- The start of `run`.
  unfoldable pub run : String → Combobox A → Combobox A
  run q c = record c { loading = true; effect = running q }

  -- The rest of `run`, when the load is back; `none` stands for a load that threw.
  unfoldable pub finish_run : ℕ → Option (List A) → Combobox A → Combobox A
  finish_run page_size none c = record c { loading = false; effect = idle }
  finish_run page_size (some batch) c = record c {
    items = batch;
    page = 0;
    has_more = eqb (length batch) page_size;
    loading = false;
    effect = idle;
  }

  -- The rest of `run` of an effect that has been cleaned up.
  abbrev pub drop_run : ℕ → Combobox A → Combobox A
  drop_run n c = record c { cancelled = n }

  -- The start of `loadMore`.
  unfoldable pub load_more : Combobox A → Combobox A
  load_more c = record c {
    loading = true;
    mores = record { search = c.search; next = suc c.page } ∷ c.mores;
  }

  -- The rest of `loadMore`, with the calls that are then in flight.
  unfoldable pub finish_more : ℕ → More → List More → Option (List A) → Combobox A → Combobox A
  finish_more page_size m rest none c = record c { loading = false; mores = rest }
  finish_more page_size m rest (some batch) c = record c {
    items = c.items ++ batch;
    page = m.next;
    has_more = eqb (length batch) page_size;
    loading = false;
    mores = rest;
  }

  -- Whether the button for more can be pressed.
  unfoldable pub shows_more : Combobox A → Bool
  shows_more c = c.is_open && not (eqb (length c.items) 0) && c.has_more && not c.loading

-- What can happen, for a page size and for what `loadItems` may answer to a search and an offset.
module _ {A : Type 0} (page_size : ℕ) (Serves : String → ℕ → List A → Type 0) where
  abbrev pub Answers : String → ℕ → Option (List A) → Type 0
  Answers q offset none = Unit
  Answers q offset (some batch) = Serves q offset batch

  pub data Step : Combobox A → Combobox A → Type 0 where
    -- a click on the trigger, outside of the dropdown, or on an item of it
    toggled : (c : Combobox A) → (b : Bool) → (b == c.is_open) ≡ false → Step c (set_open b c)
    typed :
        (c : Combobox A)
        → (v : String) → c.is_open ≡ true
        → (v == c.search) ≡ false
        → Step c (set_search v c)
    -- a new `loadItems` or `pageSize` from the caller
    reloaded : (c : Combobox A) → Step c (restart c)
    fired : (c : Combobox A) → (q : String) → c.effect ≡ waiting q → Step c (run q c)
    loaded :
        (c : Combobox A)
        → (q : String) → (answer : Option (List A)) → c.effect ≡ running q
        → Answers q 0 answer
        → Step c (finish_run page_size answer c)
    ignored : (c : Combobox A) → (n : ℕ) → c.cancelled ≡ suc n → Step c (drop_run n c)
    pressed : (c : Combobox A) → shows_more c ≡ true → Step c (load_more c)
    extended :
        (c : Combobox A)
        → (m : More) → (rest : List More) → (answer : Option (List A)) → Pick m c.mores rest
        → Answers m.search (m.next * page_size) answer
        → Step c (finish_more page_size m rest answer c)

  pub data Reach : Combobox A → Type 0 where
    mounted : Reach initial
    next : {c d : Combobox A} → Reach c → Step c d → Reach d
