-- ===== src/CheckIn/Scanner/Laws.antt =====
-- Which texts name a member.
use Prim.Native.Char.{code}
use mathlib.Core.Bool.{false≢true}
use mathlib.Core.Option.{some-injective, none-ne-some}
use dopacrm.Base.{
  ◌≡◌, refl, sym, ap, ◌∙◌, true, String, some, List, [], ◌∷◌, string_eq, Bool-cases, Option-cases,
  inl, inr, arith,
}
use dopacrm.Base.Scan.{trim}
use dopacrm.CheckIn.Scanner.{
  Slot, takes, uuid_slots, match_front, match_all, is_uuid, extract_member_id_from_url, decoded,
}

decoded_url :
    decoded " https://gym.example.com/c/0a1B2c3d-0000-4444-8888-0123456789ab "
    ≡ some "0a1B2c3d-0000-4444-8888-0123456789ab"
unfolding decoded trim
decoded_url = refl

-- What the pattern matches at the front, it matches whole.
match_front-match_all :
    (ks : List Slot) (s t : String) → match_front ks s ≡ some t → match_all ks t ≡ true
unfolding match_front match_all
match_front-match_all [] s t h = ap (match_all []) (sym (some-injective "" t h))
match_front-match_all (k ∷ ks) String.[] t h = absurd (none-ne-some t h)
match_front-match_all (k ∷ ks) (String.◌∷◌ c s) t h = elim (Bool-cases (takes k (code c))) [
  | inr not_taken ↦ absurd (none-ne-some t (rw not_taken at h))
  | inl taken ↦ elim (Option-cases (match_front ks s)) [
    | inl n ↦ absurd (none-ne-some t (rw (taken, n) at h))
    | inr (u, n) ↦
        let q : some (String.◌∷◌ c u) ≡ some t = rw (taken, n) at h in
        ap (match_all (k ∷ ks)) (sym (some-injective (String.◌∷◌ c u) t q))
        ∙ rw taken (match_front-match_all ks s u n)
  ]
]

-- A text that the pattern matches whole is matched at the front.
pub match_all-match_front :
    (ks : List Slot) (s : String) → match_all ks s ≡ true → match_front ks s ≡ some s
unfolding match_front match_all
match_all-match_front [] String.[] h = refl
match_all-match_front [] (String.◌∷◌ c s) h = absurd (false≢true h)
match_all-match_front (k ∷ ks) String.[] h = absurd (false≢true h)
match_all-match_front (k ∷ ks) (String.◌∷◌ c s) h =
    let taken : takes k (code c) ≡ true = ground (arith, h) in
    let rest : match_all ks s ≡ true = ground (arith, h) in
    rw (taken, match_all-match_front ks s rest) refl

extract-Uuid : (s id : String) → extract_member_id_from_url s ≡ some id → is_uuid id ≡ true
unfolding extract_member_id_from_url is_uuid
extract-Uuid String.[] id h = match_front-match_all uuid_slots "" id h
extract-Uuid (String.◌∷◌ c s) id h = elim (Option-cases (match_front uuid_slots (String.◌∷◌ c s))) [
  | inl n ↦ extract-Uuid s id (rw n at h)
  | inr (t, n) ↦ match_front-match_all uuid_slots (String.◌∷◌ c s) id (n ∙ (rw n at h))
]

-- Whatever is scanned, a member that the page is given is named by an id of the right form.
pub decoded-Uuid : (scan id : String) → decoded scan ≡ some id → is_uuid id ≡ true
unfolding decoded
decoded-Uuid scan id h = elim (Bool-cases (is_uuid (trim scan))) [
  | inl is ↦
      let q : some (trim scan) ≡ some id = rw is at h in
      ap is_uuid (sym (some-injective (trim scan) id q)) ∙ is
  | inr is ↦ extract-Uuid (trim scan) id (rw is at h)
]
