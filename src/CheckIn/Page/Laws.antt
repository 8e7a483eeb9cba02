-- ===== src/CheckIn/Page/Laws.antt =====
-- From the card of a member to the member's workspace.
use Prim.Native.Char.{Char, code}
use mathlib.Core.Bool.{false≢true}
use dopacrm.Base.{
  ◌≡◌, refl, sym, ap, ◌∙◌, true, false, String, ◌<>◌, none, some, string_eq, ==_iff, Bool-cases,
  inl, inr, ◌==◌,
}
use dopacrm.Base.Scan.{is_space, or_null}
use dopacrm.CheckIn.Scanner.{is_uuid, extract_member_id_from_url, decoded}
use dopacrm.CheckIn.Scanner.Links.{IsApart, NoSpace, decoded-link}
use dopacrm.CheckIn.Page.{Page, workspace_member, handle_page, scanned}

or_null-uuid : (id : String) → is_uuid id ≡ true → or_null id ≡ some id
unfolding or_null is_uuid string_eq
or_null-uuid id u = elim (Bool-cases (id == "")) [
  | inl blank ↦ absurd (false≢true (sym (ap is_uuid ((==_iff id "").0 blank)) ∙ u))
  | inr set ↦ rw set refl
]

-- A text that names a member brings the member's workspace.
scan-workspace :
    (text id : String) (page : Page)
    → page.scan_open ≡ true
    → is_uuid id ≡ true
    → decoded text ≡ some id
    → workspace_member (handle_page (scanned text) page) ≡ some id
unfolding handle_page workspace_member
scan-workspace text id page shown u d = rw (shown, d) (or_null-uuid id u)

-- The scanner is open, and the id of a member is scanned alone, as the card of the member has it, or at the end of a
-- link: the link has no white space, and before the id it holds no other and ends in a character that no id has. Then
-- the page shows the workspace of the member.
pub scanned-link :
    (p : String) (c : Char) (id : String) (page : Page)
    → page.scan_open ≡ true
    → is_uuid id ≡ true
    → IsApart c
    → NoSpace p
    → is_space (code c) ≡ false
    → extract_member_id_from_url p ≡ none
    → (workspace_member (handle_page (scanned id) page) ≡ some id)
      × (workspace_member (handle_page (scanned (p <> String.◌∷◌ c id)) page) ≡ some id)
scanned-link p c id page shown u a plain space none_before =
    let both = decoded-link p c id u a plain space none_before in
    (
      scan-workspace id id page shown u both.0,
      scan-workspace (p <> String.◌∷◌ c id) id page shown u both.1,
    )
