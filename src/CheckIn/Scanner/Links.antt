-- ===== src/CheckIn/Scanner/Links.antt =====
-- An id alone, and an id at the end of a link.
use Prim.Native.Char.{Char, code}
use text.Mathlib.TextLemmas.{nil-append, cons-append}
use mathlib.Core.Bool.{false≢true}
use mathlib.Core.Option.{none-ne-some}
use dopacrm.Base.{
  ◌≡◌, refl, sym, ◌∙◌, true, false, String, ◌<>◌, none, some, List, [], ◌∷◌, ℕ, string_eq,
  if◌then◌else◌, Bool-cases, Option-cases, inl, inr, arith,
}
use dopacrm.Base.Scan.{is_space, trim, trim_start, trim_end}
use dopacrm.CheckIn.Scanner.Laws.{match_all-match_front}
use dopacrm.CheckIn.Scanner.{
  Slot, hex, hyphen, takes, uuid_slots, match_front, match_all, is_uuid, extract_member_id_from_url,
  decoded,
}

-- No character of the text is white space.
unfoldable pub NoSpace : String → Type 0
NoSpace String.[] = Unit
NoSpace (String.◌∷◌ c s) = (is_space (code c) ≡ false) × NoSpace s

trim_end-same : (s : String) → NoSpace s → trim_end s ≡ s
unfolding trim_end NoSpace string_eq
trim_end-same String.[] h = refl
trim_end-same (String.◌∷◌ c s) (p, h) = rw (trim_end-same s h, p) refl

trim-same : (s : String) → NoSpace s → trim s ≡ s
unfolding trim trim_start NoSpace
trim-same String.[] h = refl
trim-same (String.◌∷◌ c s) (p, h) = rw p (trim_end-same (String.◌∷◌ c s) (p, h))

takes-space : (k : Slot) (n : ℕ) → takes k n ≡ true → is_space n ≡ false
takes-space hex n h = ground arith
takes-space hyphen n h = ground arith

match_all-NoSpace : (ks : List Slot) (s : String) → match_all ks s ≡ true → NoSpace s
unfolding match_all NoSpace
match_all-NoSpace [] String.[] h = tt
match_all-NoSpace [] (String.◌∷◌ c s) h = absurd (false≢true h)
match_all-NoSpace (k ∷ ks) String.[] h = tt
match_all-NoSpace (k ∷ ks) (String.◌∷◌ c s) h =
    let taken : takes k (code c) ≡ true = ground (arith, h) in
    let rest : match_all ks s ≡ true = ground (arith, h) in
    (takes-space k (code c) taken, match_all-NoSpace ks s rest)

NoSpace-append : (s t : String) → NoSpace s → NoSpace t → NoSpace (s <> t)
unfolding NoSpace
NoSpace-append String.[] t h k = rw nil-append k
NoSpace-append (String.◌∷◌ c s) t (p, h) k = rw cons-append (p, NoSpace-append s t h k)

-- A character that the pattern has no place for.
abbrev pub IsApart : Char → Type 0
IsApart c = (takes hex (code c) ≡ false) × (takes hyphen (code c) ≡ false)

apart : (k : Slot) (c : Char) → IsApart c → takes k (code c) ≡ false
apart hex c (h, _) = h
apart hyphen c (_, h) = h

match_front-blocked :
    (ks : List Slot) (p : String) (c : Char) (s : String)
    → IsApart c
    → match_front ks p ≡ none
    → match_front ks (p <> String.◌∷◌ c s) ≡ none
unfolding match_front
match_front-blocked [] p c s a h = absurd (none-ne-some "" (sym h))
match_front-blocked (k ∷ ks) String.[] c s a h = rw (nil-append, apart k c a) refl
match_front-blocked (k ∷ ks) (String.◌∷◌ d p) c s a h =
    rw cons-append (elim (Bool-cases (takes k (code d))) [
      | inr other ↦ rw other refl
      | inl taken ↦ elim (Option-cases (match_front ks p)) [
        | inl n ↦ rw (taken, match_front-blocked ks p c s a n) refl
        | inr (t, n) ↦ absurd (none-ne-some (String.◌∷◌ d t) (sym (rw (taken, n) at h)))
      ]
    ])

extract-front : (p : String) → extract_member_id_from_url p ≡ none → match_front uuid_slots p ≡ none
unfolding extract_member_id_from_url
extract-front String.[] h = h
extract-front (String.◌∷◌ d p) h = elim (Option-cases (match_front uuid_slots (String.◌∷◌ d p))) [
  | inl n ↦ n
  | inr (t, n) ↦ absurd (none-ne-some t (sym (rw n at h)))
]

extract-same : (id : String) → is_uuid id ≡ true → extract_member_id_from_url id ≡ some id
unfolding extract_member_id_from_url is_uuid
extract-same String.[] h = absurd (false≢true h)
extract-same (String.◌∷◌ d s) h = rw (match_all-match_front uuid_slots (String.◌∷◌ d s) h) refl

extract-next :
    (c : Char) (s : String)
    → match_front uuid_slots (String.◌∷◌ c s) ≡ none
    → extract_member_id_from_url (String.◌∷◌ c s) ≡ extract_member_id_from_url s
unfolding extract_member_id_from_url
extract-next c s h = rw h refl

extract-after :
    (p : String) (c : Char) (id : String)
    → IsApart c
    → is_uuid id ≡ true
    → extract_member_id_from_url p ≡ none
    → extract_member_id_from_url (p <> String.◌∷◌ c id) ≡ some id
extract-after String.[] c id a u h =
    let blocked : match_front uuid_slots ("" <> String.◌∷◌ c id) ≡ none =
      match_front-blocked uuid_slots "" c id a (extract-front "" h) in
    rw nil-append (extract-next c id (rw nil-append at blocked) ∙ extract-same id u)
extract-after (String.◌∷◌ d p) c id a u h =
    let front = extract-front (String.◌∷◌ d p) h in
    let blocked = match_front-blocked uuid_slots (String.◌∷◌ d p) c id a front in
    let before = sym (extract-next d p front) ∙ h in
    rw cons-append (
      extract-next d (p <> String.◌∷◌ c id) (rw cons-append at blocked)
      ∙ extract-after p c id a u before)

decoded-same :
    (s : String)
    → NoSpace s
    → decoded s ≡ (if is_uuid s then some s else extract_member_id_from_url s)
unfolding decoded
decoded-same s h = rw (trim-same s h) refl

link-not_uuid :
    (p : String) (c : Char) (id : String)
    → IsApart c
    → extract_member_id_from_url p ≡ none
    → is_uuid (p <> String.◌∷◌ c id) ≡ false
unfolding is_uuid
link-not_uuid p c id a none_before =
    let blocked = match_front-blocked uuid_slots p c id a (extract-front p none_before) in
    elim (Bool-cases (is_uuid (p <> String.◌∷◌ c id))) [
      | inr other ↦ other
      | inl same ↦ absurd (
          none-ne-some (p <> String.◌∷◌ c id)
            (sym blocked ∙ match_all-match_front uuid_slots (p <> String.◌∷◌ c id) same))
    ]

-- The id of a member is scanned alone, as the card of the member has it, or at the end of a link: the link has no white
-- space, and before the id it holds no other and ends in a character that no id has. Then the page is given the id.
pub decoded-link :
    (p : String) (c : Char) (id : String)
    → is_uuid id ≡ true
    → IsApart c
    → NoSpace p
    → is_space (code c) ≡ false
    → extract_member_id_from_url p ≡ none
    → (decoded id ≡ some id) × (decoded (p <> String.◌∷◌ c id) ≡ some id)
unfolding is_uuid NoSpace
decoded-link p c id u a plain space none_before =
    let id_plain = match_all-NoSpace uuid_slots id u in
    let link_plain = NoSpace-append p (String.◌∷◌ c id) plain (space, id_plain) in
    (
      decoded-same id id_plain ∙ rw u refl,
      decoded-same (p <> String.◌∷◌ c id) link_plain
          ∙ rw (link-not_uuid p c id a none_before) (extract-after p c id a u none_before),
    )
