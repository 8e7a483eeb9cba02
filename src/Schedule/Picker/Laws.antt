-- ===== src/Schedule/Picker/Laws.antt =====
-- What the list of classes shows once it has come, with the combobox that asks for it.
use dopacrm.Base.{
  ◌≡◌, refl, ap, ◌∙◌, Bool, true, false, not, ◌≤◌, String, List, [], ◌∷◌, ◌++◌, ℕ, zero, suc, ◌+◌,
  ◌*◌, filter, take, drop, all, length, ◌==◌, string_eq, Bool-cases, inl, inr, arith,
}
use mathlib.Core.Path.{subst}
use mathlib.Core.Bool.{false≢true}
use dopacrm.Ui.Combobox.{Combobox, idle, Reach}
use dopacrm.Ui.Combobox.Pages.{Pages, one, more}
use dopacrm.Ui.Combobox.Laws.{IsCalm, Reach-Pages}
use dopacrm.Schedule.Picker.{GymClass, found, load_classes}

module _ {A : Type 0} where
  take-drop : (m n : ℕ) (xs : List A) → take m xs ++ take n (drop m xs) ≡ take (m + n) xs
  take-drop zero n xs = let e : zero + n ≡ n = omega arith in rw e refl
  take-drop (suc m) zero [] = let e : suc m + zero ≡ suc m = omega arith in rw e refl
  take-drop (suc m) (suc n) [] = let e : suc m + suc n ≡ suc (m + suc n) = omega arith in rw e refl
  take-drop (suc m) n (x ∷ xs) =
      let e : suc m + n ≡ suc (m + n) = omega arith in rw e (ap (λ l. x ∷ l) (take-drop m n xs))

  take-take : (m n : ℕ) (xs : List A) → m ≤ n → take m (take n xs) ≡ take m xs
  take-take zero n xs h = refl
  take-take (suc m) zero xs h = absurd (omega arith)
  take-take (suc m) (suc n) [] h = refl
  take-take (suc m) (suc n) (x ∷ xs) h = ap (λ l. x ∷ l) (take-take m n xs (omega arith))

  take-long : (n : ℕ) (xs : List A) → length xs ≤ n → take n xs ≡ xs
  take-long zero [] h = refl
  take-long zero (x ∷ xs) h = absurd (omega arith)
  take-long (suc n) [] h = refl
  take-long (suc n) (x ∷ xs) h = ap (λ l. x ∷ l) (take-long n xs (omega arith))

  length-drop : (n : ℕ) (xs : List A) → length (drop n xs) ≤ length xs
  length-drop zero xs = omega arith
  length-drop (suc n) [] = omega arith
  length-drop (suc n) (x ∷ xs) = omega (arith, length-drop n xs)

  filter-drop :
      (p : A → Bool) (n : ℕ) (xs : List A)
      → all (λ a. not (p a)) (take n xs) ≡ true
      → filter p (drop n xs) ≡ filter p xs
  filter-drop p zero xs h = refl
  filter-drop p (suc n) [] h = refl
  filter-drop p (suc n) (x ∷ xs) h = elim (Bool-cases (p x)) [
    | inl hit ↦ absurd (false≢true (rw hit at h))
    | inr miss ↦ rw miss (filter-drop p n xs (rw miss at h))
  ]

module _ (lower : String → String) (classes : List GymClass) (page_size : ℕ) where
  -- The answers of `loadClasses` while the classes of the tenant stay the same.
  abbrev pub Loads : String → ℕ → List GymClass → Type 0
  Loads search offset batch = batch ≡ load_classes lower classes search page_size offset

  load_classes-unfiltered :
      (offset : ℕ)
      → page_size ≤ 200
      → load_classes lower classes "" page_size offset ≡ take page_size (drop offset classes)
  unfolding load_classes string_eq
  load_classes-unfiltered offset small = take-take page_size 200 (drop offset classes) small

  sum_of_pages : (n : ℕ) → suc n * page_size + page_size ≡ suc (suc n) * page_size
  sum_of_pages n = omega arith

  Pages-take :
      {n : ℕ} {items : List GymClass}
      → page_size ≤ 200
      → Pages page_size Loads "" n items
      → items ≡ take (suc n * page_size) classes
  Pages-take small (one served) =
      served
      ∙ load_classes-unfiltered 0 small
      ∙ (let e : 1 * page_size ≡ page_size = omega arith in rw e refl)
  Pages-take small (more {n} pages served) =
      rw (Pages-take small pages, served, load_classes-unfiltered (suc n * page_size) small)
        (take-drop (suc n * page_size) page_size classes
          ∙ ap (λ k. take k classes) (sum_of_pages n))

  load_classes-repeated :
      (search : String)
      → (search == "") ≡ false
      → length classes ≤ 200
      → all (λ c. not (found lower classes search c)) (take page_size classes) ≡ true
      → load_classes lower classes search page_size page_size
        ≡ load_classes lower classes search page_size 0
  unfolding load_classes string_eq
  load_classes-repeated search typed few later =
      rw
        (
          typed,
          take-long 200 classes few,
          take-long 200 (drop page_size classes) (omega (arith, length-drop page_size classes)),
          filter-drop (found lower classes search) page_size classes later,
        )
        refl

  Pages-two :
      {search : String} {n : ℕ} {items : List GymClass}
      → Pages page_size Loads search n items
      → n ≡ 1
      → items
        ≡ load_classes lower classes search page_size 0
          ++ load_classes lower classes search page_size page_size
  Pages-two (one served) e = absurd (omega arith)
  Pages-two (more (one served) next) e =
      rw (served, next) (let f : 1 * page_size ≡ page_size = omega arith in rw f refl)
  Pages-two (more (more pages served) next) e = absurd (omega arith)

  -- The classes do not change, and a page is 200 classes at most. In a run of the list that overtakes no load for
  -- more and in which no load of a first page fails, when nothing that counts is in flight, the list is open and
  -- nothing is typed, then it shows the first classes of the tenant, as many as the pages hold that are counted.
  pub Reach-take :
      {c : Combobox GymClass} (r : Reach page_size Loads c)
      → page_size ≤ 200
      → IsCalm page_size Loads r
      → c.effect ≡ idle
      → c.mores ≡ []
      → c.is_open ≡ true
      → c.search ≡ ""
      → c.items ≡ take (suc c.page * page_size) classes
  Reach-take {c} r small calm e f o blank = Pages-take small (
      subst (λ q. Pages page_size Loads q c.page c.items) blank
        (Reach-Pages page_size Loads r calm e f o).1)

  -- The classes of the tenant, 200 at most, do not change, and none of the first page of them matches the text
  -- in the box. In a run of the list that overtakes no load for more and in which no load of a first page
  -- fails, when nothing that counts is in flight, the list is open and its second page has come, then it shows
  -- its first page twice.
  pub Reach-twice :
      {c : Combobox GymClass} (r : Reach page_size Loads c)
      → length classes ≤ 200
      → IsCalm page_size Loads r
      → c.effect ≡ idle
      → c.mores ≡ []
      → c.is_open ≡ true
      → c.page ≡ 1
      → (c.search == "") ≡ false
      → all (λ k. not (found lower classes c.search k)) (take page_size classes) ≡ true
      → let first_page = load_classes lower classes c.search page_size 0 in
        c.items ≡ first_page ++ first_page
  Reach-twice {c} r few calm e f o second typed later =
      Pages-two (Reach-Pages page_size Loads r calm e f o).1 second
      ∙ ap (λ l. load_classes lower classes c.search page_size 0 ++ l)
          (load_classes-repeated c.search typed few later)
