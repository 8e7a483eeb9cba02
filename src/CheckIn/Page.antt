-- ===== src/CheckIn/Page.antt =====
-- `CheckInPage` and `MemberPicker` of frontend/src/features/attendance/CheckInPage.tsx: which member is on the page.
pub mod Laws
use dopacrm.Base.{
  Bool, true, false, String, Option, none, some, [], ◌∷◌, ℕ, string_eq, if◌then◌else◌,
}
use dopacrm.Base.Scan.{or_null}
use dopacrm.Api.Members.{MemberFilters}
use dopacrm.CheckIn.Scanner.{decoded}

pub record Page : Type 0 where
  pub selected_member_id : Option String
  pub scan_open : Bool

abbrev pub first : Page
first = record { selected_member_id = none; scan_open = false }

-- What `MemberPicker` shows.
pub data Picker : Type 0 where
  scanner combobox : Picker

abbrev pub picker : Page → Picker
picker page = if page.scan_open then scanner else combobox

-- `selectedMemberId && <ActiveMemberWorkspace …>`
abbrev pub truthy : Option String → Option String
truthy none = none
truthy (some id) = or_null id

unfoldable pub workspace_member : Page → Option String
unfolding or_null
workspace_member page = truthy page.selected_member_id

-- `loadMembers`
abbrev pub member_filters : String → ℕ → ℕ → MemberFilters
member_filters search limit offset = record {
  status = some ("active" ∷ "frozen" ∷ []);
  search = or_null search;
  limit = some limit;
  offset = some offset;
}

-- `handleScan`
abbrev pub handle_scan : String → Page → Page
handle_scan id page = record page { scan_open = false; selected_member_id = some id }

-- What a scanned text does to the page.
abbrev pub take_scan : Option String → Page → Page
take_scan none page = page
take_scan (some id) page = handle_scan id page

unfoldable pub scan : String → Page → Page
unfolding decoded
scan text page = take_scan (decoded text) page

pub data PageEvent : Type 0 where
  scan_opened scan_closed cleared : PageEvent
  scanned : String → PageEvent
  picked : String → PageEvent

-- One event; a text is scanned only while the scanner is open.
unfoldable pub handle_page : PageEvent → Page → Page
unfolding scan
handle_page scan_opened page = record page { scan_open = true }
handle_page scan_closed page = record page { scan_open = false }
handle_page cleared page = record page { selected_member_id = none }
handle_page (scanned text) page = if page.scan_open then scan text page else page
handle_page (picked id) page = record page { selected_member_id = some id }
