-- ===== src/Hotkeys.antt =====
-- Hotkeys, frontend/src/hotkeys/utils/hotkeyMatcher.ts.  What the browser says of an event's target
-- is a record; a combination is the list of its parts, split at `+`, trimmed, in lower case and not
-- empty, and the key of an event is given in lower case beside the key itself.
pub mod Eligibility
pub mod Matching
pub mod Dispatch
pub mod Examples
use yanta.Prelude.{
  Bool, true, false, not, ◌||◌, ◌&&◌, Option, none, some, List, [], ◌∷◌, String, str_eq, any,
  if◌then◌else◌,
}

-- `none` for an attribute that the target has not; `is_editable` is `isContentEditable`, or an
-- ancestor with `contenteditable`.
pub record Target : Type 0 where
  pub tag : String
  pub role : Option String
  pub input_type : Option String
  pub is_editable : Bool

pub record TargetClassification : Type 0 where
  pub in_input_field : Bool
  pub is_interactive_element : Bool

pub record KeyEvent : Type 0 where
  pub key : String
  pub lower_key : String
  pub ctrl_key : Bool
  pub meta_key : Bool
  pub alt_key : Bool
  pub shift_key : Bool

abbrev pub non_text_input_types : List String
non_text_input_types = "checkbox" ∷ "radio" ∷ "button" ∷ "submit" ∷ "image" ∷ "reset" ∷ []

abbrev pub or_empty : Option String → String
or_empty none = ""
or_empty (some s) = s

abbrev pub is_value : String → Option String → Bool
is_value s none = false
is_value s (some t) = str_eq t s

abbrev pub is_non_text_input : Target → Bool
is_non_text_input t =
    str_eq t.tag "INPUT" && any (λ kind. str_eq kind (or_empty t.input_type)) non_text_input_types

abbrev pub classify_element : Target → TargetClassification
classify_element t = record {
  in_input_field =
      (str_eq t.tag "INPUT" && not (is_non_text_input t))
      || str_eq t.tag "TEXTAREA"
      || t.is_editable;
  is_interactive_element =
      str_eq t.tag "BUTTON"
      || str_eq t.tag "A"
      || is_non_text_input t
      || is_value "button" t.role
      || is_value "link" t.role
      || is_value "checkbox" t.role
      || is_value "radio" t.role;
}

unfoldable pub classify_event_target : Option Target → TargetClassification
classify_event_target none = record { in_input_field = false; is_interactive_element = false }
classify_event_target (some t) = classify_element t

abbrev pub has_modifier : KeyEvent → Bool
has_modifier e = e.ctrl_key || e.meta_key || e.alt_key

unfoldable pub is_hotkey_eligible_for_target : KeyEvent → Option Target → Bool → Bool
is_hotkey_eligible_for_target e target allow_in_input =
    let c = classify_event_target target in
    if allow_in_input
    then true
    else if c.in_input_field
    then false
    else not (c.is_interactive_element && not (has_modifier e) && not (str_eq e.key "Escape"))

-- What the loop over the parts of a combination has found so far.
pub record Required : Type 0 where
  pub key : Option String
  pub ctrl : Bool
  pub meta : Bool
  pub alt : Bool
  pub shift : Bool

abbrev pub nothing_required : Required
nothing_required = record { key = none; ctrl = false; meta = false; alt = false; shift = false }

abbrev pub require : Bool → String → Required → Required
require is_mac part r =
    if str_eq part "mod"
    then (if is_mac then record r { meta = true } else record r { ctrl = true })
    else if str_eq part "ctrl" || str_eq part "control"
    then record r { ctrl = true }
    else if str_eq part "cmd" || str_eq part "command" || str_eq part "meta"
    then record r { meta = true }
    else if str_eq part "alt" || str_eq part "option"
    then record r { alt = true }
    else if str_eq part "shift"
    then record r { shift = true }
    else record r { key = some part }

unfoldable pub require_all : Bool → List String → Required → Required
require_all is_mac [] r = r
require_all is_mac (part ∷ parts) r = require_all is_mac parts (require is_mac part r)

abbrev pub as_space : Option String → Option String
as_space none = none
as_space (some key) = if str_eq key "space" then some " " else some key

abbrev pub same_flag : Bool → Bool → Bool
same_flag true b = b
same_flag false b = not b

abbrev pub key_matches : Option String → Bool → String → Bool
key_matches none shift key = true
key_matches (some wanted) shift key =
    if str_eq wanted "\\" && shift then str_eq key "|" else str_eq key wanted

abbrev pub event_matches : Required → KeyEvent → Bool
event_matches r e =
    key_matches r.key r.shift e.lower_key
    && same_flag e.ctrl_key r.ctrl
    && same_flag e.meta_key r.meta
    && same_flag e.alt_key r.alt
    && same_flag e.shift_key r.shift

unfoldable pub create_hotkey_matcher : Bool → List String → KeyEvent → Bool
create_hotkey_matcher is_mac parts e =
    let r = require_all is_mac parts nothing_required in
    event_matches (record r { key = as_space r.key }) e
