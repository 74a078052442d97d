-- ===== src/Hotkeys/Examples.antt =====
-- Shift and a letter, on a button.
use yanta.Prelude.{
  ℕ, Bool, String, List, str_eq, some, sort_by, if◌then◌else◌, ◌≡◌, refl, true, false, none, [],
  ◌∷◌,
}
use yanta.Hotkeys.{Target, KeyEvent, create_hotkey_matcher, require_all}
use yanta.Hotkeys.{is_hotkey_eligible_for_target}
use yanta.Hotkeys.Dispatch.{RegisteredHotkey, group, try_handlers, handle_bubble}

abbrev shift_s : KeyEvent
shift_s = record {
  key = "S";
  lower_key = "s";
  ctrl_key = true;
  meta_key = false;
  alt_key = false;
  shift_key = true;
}

abbrev button : Target
button = record { tag = "BUTTON"; role = none; input_type = none; is_editable = false }

matches_test : create_hotkey_matcher false ("mod" ∷ "shift" ∷ "s" ∷ []) shift_s ≡ true
unfolding create_hotkey_matcher require_all
matches_test = refl

-- Two hotkeys for one combination, spelled in two ways, of which the first declines.
abbrev hotkey : String → String → ℕ → Bool → Bool → RegisteredHotkey
hotkey id key priority capture accepts = record {
  id = id;
  key = key;
  priority = priority;
  allow_in_input = true;
  capture = capture;
  handler = λ e. accepts;
}

abbrev parts : String → List String
parts key =
    if str_eq key "mod+shift+s" then "mod" ∷ "shift" ∷ "s" ∷ [] else "ctrl" ∷ "shift" ∷ "s" ∷ []

abbrev captured : List RegisteredHotkey
captured = hotkey "a" "mod+shift+s" 1 true false ∷ hotkey "b" "ctrl+shift+s" 2 true true ∷ []

-- In the bubble phase the second spelling is not tried, though its priority is higher.
abbrev bubbled : List RegisteredHotkey
bubbled = hotkey "a" "mod+shift+s" 1 false false ∷ hotkey "b" "ctrl+shift+s" 2 false true ∷ []

second_spelling_not_tried :
    (handle_bubble false parts (group bubbled []) false (some button) shift_s).taken ≡ false
unfolding handle_bubble group try_handlers sort_by create_hotkey_matcher require_all
    is_hotkey_eligible_for_target
second_spelling_not_tried = refl
