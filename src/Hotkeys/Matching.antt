-- ===== src/Hotkeys/Matching.antt =====
-- What a combination asks of an event's modifiers.
use yanta.Prelude.{
  ◌≡◌, ◌∙◌, sym, Bool, true, ◌||◌, List, [], ◌∷◌, String, str_eq, arith, Bool-cases, inl, inr, any,
  eq_iff,
}
use mathlib.Core.Path.{subst}
use yanta.Hotkeys.{
  KeyEvent, Required, require, require_all, nothing_required, as_space, event_matches,
  create_hotkey_matcher,
}

abbrev pub names_shift : String → Bool
names_shift part = str_eq part "shift"

require-shift :
    (is_mac : Bool) (part : String) (r : Required)
    → (require is_mac part r).shift ≡ (r.shift || names_shift part)
require-shift is_mac part r = elim (Bool-cases (str_eq part "shift")) [
  | inl is_shift ↦
      subst (λ p. (require is_mac p r).shift ≡ (r.shift || names_shift p))
        (sym ((eq_iff part "shift").0 is_shift)) (ground arith)
  | inr other ↦ ground (arith, other)
]

require_all-shift :
    (is_mac : Bool) (parts : List String) (r : Required)
    → (require_all is_mac parts r).shift ≡ (r.shift || any names_shift parts)
unfolding require_all
require_all-shift is_mac [] r = ground arith
require_all-shift is_mac (part ∷ parts) r =
    require_all-shift is_mac parts (require is_mac part r)
    ∙ rw (require-shift is_mac part r) (ground arith)

flag_of_matches : (r : Required) (e : KeyEvent) → event_matches r e ≡ true → e.shift_key ≡ r.shift
flag_of_matches r e h = ground arith

-- An event that a combination accepts has Shift down exactly if a part of the combination names it.
pub create_hotkey_matcher-shift :
    (is_mac : Bool) (parts : List String) (e : KeyEvent)
    → create_hotkey_matcher is_mac parts e ≡ true
    → e.shift_key ≡ any names_shift parts
unfolding create_hotkey_matcher
create_hotkey_matcher-shift is_mac parts e h =
    let r = require_all is_mac parts nothing_required in
    flag_of_matches (record r { key = as_space r.key }) e h
    ∙ require_all-shift is_mac parts nothing_required
