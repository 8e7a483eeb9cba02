-- ===== src/CheckIn/Feed.antt =====
-- `RecentEntriesFeed`, `UndoButton`, `isWithinUndoWindow` and `timeAgo` of
-- frontend/src/features/attendance/CheckInPage.tsx. A moment is in milliseconds.
pub mod Laws
use Prim.Native.Nat.{◌/◌}
use dopacrm.Base.{
  Bool, true, false, not, ◌&&◌, String, Option, none, some, List, [], ◌∷◌, ℕ, ◌-◌, ltb, leb, map,
  is_some, if◌then◌else◌,
}
use dopacrm.Server.Entries.{Entry}
use dopacrm.CheckIn.Cards.{map_get}
use dopacrm.CheckIn.Workspace.{GymClass}

-- `isWithinUndoWindow`
abbrev pub is_within_undo_window : ℕ → ℕ → Bool
is_within_undo_window now entered = leb (now - entered) 86400000

pub data TimeAgo : Type 0 where
  under_a_minute : TimeAgo
  minutes_ago hours_ago : ℕ → TimeAgo
  on_date : ℕ → TimeAgo

-- `timeAgo`, with the age in milliseconds: `Math.floor(seconds / 60)` is the age divided by 60000.
unfoldable pub time_ago : ℕ → ℕ → TimeAgo
time_ago now entered =
    let age = now - entered in
    if ltb age 60000
    then under_a_minute
    else if ltb age 3600000
    then minutes_ago (age / 60000)
    else if ltb age 86400000
    then hours_ago (age / 3600000)
    else on_date entered

-- A row of the feed.
pub record FeedRow : Type 0 where
  pub name : Option String
  pub override_badge : Bool
  pub undone_badge : Bool
  pub time : TimeAgo
  pub undo_button : Bool

-- Whether a row has the button: `!e.undone_at && withinWindow`
unfoldable pub has_undo : ℕ → Entry → Bool
has_undo now e = not (is_some e.undone_at) && is_within_undo_window now e.entered_at

abbrev pub feed_row : List GymClass → ℕ → Entry → FeedRow
feed_row classes now e = record {
  name = map_get e.class_id (map (λ c. (c.id, c.name)) classes);
  override_badge = is_some e.override_kind;
  undone_badge = is_some e.undone_at;
  time = time_ago now e.entered_at;
  undo_button = has_undo now e;
}

-- `RecentEntriesFeed`; nothing while the entries load, or where there are none
unfoldable pub recent_entries_feed : Option (List Entry) → List GymClass → ℕ → Option (List FeedRow)
recent_entries_feed none classes now = none
recent_entries_feed (some []) classes now = none
recent_entries_feed (some entries) classes now = some (map (feed_row classes now) entries)
