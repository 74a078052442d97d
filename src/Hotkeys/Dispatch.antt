-- ===== src/Hotkeys/Dispatch.antt =====
-- The dispatch of hotkeys, frontend/src/hotkeys/context/useHotkeyProviderValue.ts: which of the
-- registered handlers run for a key, and in which order.  A handler is what it returns for an event,
-- `false` to decline it; `parts` splits a combination as the browser does.
pub mod Priority
pub mod Groups
use yanta.Prelude.{
  ℕ, leb, Bool, true, false, not, Option, none, some, String, str_eq, List, [], ◌∷◌, ◌++◌, lookup,
  insert, filter, any, sort_by, if◌then◌else◌,
}
use yanta.Hotkeys.{KeyEvent, Target, is_hotkey_eligible_for_target, create_hotkey_matcher}

pub record RegisteredHotkey : Type 0 where
  pub id : String
  pub key : String
  pub priority : ℕ
  pub allow_in_input : Bool
  pub capture : Bool
  pub handler : KeyEvent → Bool

-- The handlers that ran, in their order, and whether one of them took the event.
pub record Dispatched : Type 0 where
  pub ran : List RegisteredHotkey
  pub taken : Bool

-- The lists of one map, by key: `targetMap.get(hotkey.key) ?? []`, with the hotkey at its end.
abbrev pub or_nil : Option (List RegisteredHotkey) → List RegisteredHotkey
or_nil none = []
or_nil (some l) = l

unfoldable pub group :
    List RegisteredHotkey
    → List (String × List RegisteredHotkey)
    → List (String × List RegisteredHotkey)
group [] m = m
group (h ∷ hotkeys) m = group hotkeys (insert h.key (or_nil (lookup h.key m) ++ (h ∷ [])) m)

-- `special` are the keys of SPECIAL_KEY_SET.
abbrev pub for_phase : List String → Bool → List RegisteredHotkey → List RegisteredHotkey
for_phase special capture hotkeys =
    filter
      (λ h.
        if any (λ k. str_eq k h.key) special
        then false
        else (if capture then h.capture else not h.capture))
      hotkeys

-- `(b.priority || 0) - (a.priority || 0) <= 0`
abbrev pub no_lower : RegisteredHotkey → RegisteredHotkey → Bool
no_lower a b = leb b.priority a.priority

abbrev pub flat : List (String × List RegisteredHotkey) → List RegisteredHotkey
flat [] = []
flat ((key, handlers) ∷ m) = handlers ++ flat m

unfoldable pub capture_order : List String → List RegisteredHotkey → List RegisteredHotkey
capture_order special hotkeys = sort_by no_lower (flat (group (for_phase special true hotkeys) []))

-- The loop over the handlers; `may_run` is what it tests before it calls one.
unfoldable pub try_handlers :
    (RegisteredHotkey → Bool) → List RegisteredHotkey → KeyEvent → Dispatched
try_handlers may_run [] event = record { ran = []; taken = false }
try_handlers may_run (h ∷ hotkeys) event =
    let rest = try_handlers may_run hotkeys event in
    if may_run h
    then if h.handler event
      then record { ran = h ∷ []; taken = true }
      else record { ran = h ∷ rest.ran; taken = rest.taken }
    else rest

module _ (is_mac : Bool) (parts : String → List String) where
  abbrev pub matches : RegisteredHotkey → KeyEvent → Bool
  matches h event = create_hotkey_matcher is_mac (parts h.key) event

  abbrev pub is_eligible : Option Target → KeyEvent → RegisteredHotkey → Bool
  is_eligible target event h = is_hotkey_eligible_for_target event target h.allow_in_input

  abbrev pub is_candidate : Option Target → KeyEvent → RegisteredHotkey → Bool
  is_candidate target event h = if matches h event then is_eligible target event h else false

  abbrev pub nothing_ran : Dispatched
  nothing_ran = record { ran = []; taken = false }

  -- `order` is `capture_order` of the registered hotkeys.
  unfoldable pub handle_capture :
      List RegisteredHotkey → Bool → Option Target → KeyEvent → Dispatched
  handle_capture order is_dialog_open target event =
      if is_dialog_open then nothing_ran else try_handlers (is_candidate target event) order event

  -- The entries of the bubble phase: the first key that the event matches is the only one tried.
  unfoldable pub handle_bubble :
      List (String × List RegisteredHotkey) → Bool → Option Target → KeyEvent → Dispatched
  handle_bubble [] is_dialog_open target event = nothing_ran
  handle_bubble ((key, handlers) ∷ entries) is_dialog_open target event =
      let later = handle_bubble entries is_dialog_open target event in
      if is_dialog_open
      then nothing_ran
      else if create_hotkey_matcher is_mac (parts key) event
      then try_handlers (is_eligible target event) (sort_by no_lower handlers) event
      else later
