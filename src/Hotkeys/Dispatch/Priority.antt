-- ===== src/Hotkeys/Dispatch/Priority.antt =====
-- The capture phase tries the handlers by priority, and the highest that accepts takes the event.
use yanta.Prelude.{◌≡◌, Bool, true, List, All, IsSorted}
use yanta.Hotkeys.{KeyEvent}
use yanta.Hotkeys.Dispatch.{RegisteredHotkey, Dispatched, no_lower}

-- If the handler may run and accepts the event, the event is taken, and by none of lower priority.
abbrev pub Served : (RegisteredHotkey → Bool) → KeyEvent → Dispatched → RegisteredHotkey → Type 0
Served may_run event d h =
    may_run h ≡ true
    → h.handler event ≡ true
    → (d.taken ≡ true) × All (λ r. no_lower r h ≡ true) d.ran

-- The handlers that ran may run, stand by priority, and an accepting handler that may run has the
-- event taken by one of at least its priority, after only such ones.
pub record ByPriority (may_run : RegisteredHotkey → Bool) (event : KeyEvent)
    (order : List RegisteredHotkey) (d : Dispatched) : Type 0 where
  pub allowed : All (λ h. may_run h ≡ true) d.ran
  pub in_order : IsSorted no_lower d.ran
  pub highest : All (Served may_run event d) order
