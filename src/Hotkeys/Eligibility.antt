-- ===== src/Hotkeys/Eligibility.antt =====
-- Which keys may reach a handler.
use yanta.Prelude.{◌≡◌, Bool, not, ◌||◌, ◌&&◌, Option, str_eq, arith}
use yanta.Hotkeys.{
  Target, KeyEvent, classify_event_target, has_modifier, is_hotkey_eligible_for_target,
}

-- A handler that allows input always fires; another one fires exactly outside of input fields, and
-- there on an interactive element only with a modifier or Escape.
pub eligible_iff :
    (e : KeyEvent) (target : Option Target) (allow : Bool)
    → is_hotkey_eligible_for_target e target allow ≡ (
        allow
        || (not (classify_event_target target).in_input_field
            && (not (classify_event_target target).is_interactive_element
                || has_modifier e
                || str_eq e.key "Escape")))
unfolding is_hotkey_eligible_for_target
eligible_iff e target allow = ground arith
