-- ===== src/LeaderKeys.antt =====
-- Navigation by the leader key, frontend/src/app/hooks/useLeaderKeys.ts: `g`, then the key of a page.
-- `lower` is the browser's `toLowerCase`; whether the event's target is editable is given.
pub mod Sequences
pub mod Examples
use yanta.Prelude.{
  Bool, true, false, ◌||◌, Option, none, some, String, str_eq, List, [], ◌∷◌, ◌++◌, lookup,
  if◌then◌else◌,
}

pub data PageName : Type 0 where
  dashboard journal search projects settings : PageName

abbrev pub leader : String
leader = "g"

abbrev pub destinations : List (String × PageName)
destinations =
    ("d", dashboard) ∷ ("j", journal) ∷ ("s", search) ∷ ("p", projects) ∷ (",", settings) ∷ []

pub record KeyboardEvent : Type 0 where
  pub key : String
  pub default_prevented : Bool
  pub ctrl_key : Bool
  pub meta_key : Bool
  pub alt_key : Bool
  pub editable_target : Bool

pub data Event : Type 0 where
  key_down : KeyboardEvent → Event
  timeout : Event

-- The variables of the effect, and the pages that were navigated to, in their order.
pub record LeaderKeys : Type 0 where
  pub armed : Bool
  pub timer : Bool
  pub visited : List PageName

abbrev pub disarm : LeaderKeys → LeaderKeys
disarm s = record s { armed = false; timer = false }

abbrev pub is_modified : KeyboardEvent → Bool
is_modified e = e.default_prevented || (e.ctrl_key || (e.meta_key || e.alt_key))

abbrev pub go_to : Option PageName → LeaderKeys → LeaderKeys
go_to none s = s
go_to (some page) s = record s { visited = s.visited ++ (page ∷ []) }

-- The branches of `onKeyDown`: whether the key is modified, the target editable, a sequence in
-- progress, the key the leader, and the page that the key stands for.
abbrev pub respond : Bool → Bool → Bool → Bool → Option PageName → LeaderKeys → LeaderKeys
respond modified editable armed is_leader page s =
    if modified
    then disarm s
    else if editable
    then disarm s
    else if armed
    then go_to page (disarm s)
    else if is_leader
    then record s { armed = true; timer = true }
    else s

module _ (lower : String → String) where
  unfoldable pub on_key_down : KeyboardEvent → LeaderKeys → LeaderKeys
  on_key_down e s =
      respond (is_modified e) e.editable_target s.armed (str_eq e.key leader)
        (lookup (lower e.key) destinations) s

  abbrev pub step : Event → LeaderKeys → LeaderKeys
  step (key_down e) s = on_key_down e s
  step timeout s = disarm s

  unfoldable pub run : List Event → LeaderKeys → LeaderKeys
  run [] s = s
  run (e ∷ es) s = run es (step e s)

abbrev pub idle : LeaderKeys
idle = record { armed = false; timer = false; visited = [] }
