-- ===== src/CanvasEscape.antt =====
-- Leaving a canvas by Escape, frontend/src/document/hooks/useCanvasEscapeSequence.ts: the refs of
-- the hook of a canvas document, its handler and its listeners. A gesture says what became of one
-- key press in the active pane; `unfocus` and `exit` call `onUnfocus` and `onExit`.
pub mod Gestures
pub mod Examples
use yanta.Prelude.{ℕ, zero, suc, ◌+◌, ◌==◌, Bool, true, false, List, [], ◌∷◌, ◌++◌, if◌then◌else◌}

-- A press is yielded to Excalidraw, or consumed.
pub data Gesture : Type 0 where
  yielded unfocus exit : Gesture

pub data Event : Type 0 where
  escape : Bool → Event
  other_key pointer_down timeout unmount : Event

pub record CanvasEscape : Type 0 where
  pub count : ℕ
  pub timer : Bool
  pub gestures : List Gesture

abbrev pub reset_sequence : CanvasEscape → CanvasEscape
reset_sequence s = record s { count = 0; timer = false }

abbrev pub add : Gesture → CanvasEscape → CanvasEscape
add g s = record s { gestures = s.gestures ++ (g ∷ []) }

-- The handler after the count went up and the timer was set again.
abbrev respond : CanvasEscape → CanvasEscape
respond s =
    if s.count == 1
    then add yielded s
    else if s.count == 2
    then add unfocus s
    else add exit (reset_sequence s)

unfoldable pub handle_canvas_escape : Bool → CanvasEscape → CanvasEscape
handle_canvas_escape false s = s
handle_canvas_escape true s = respond (record s { count = s.count + 1; timer = true })

-- `escape` carries whether the pane is the active one; a timeout is that of the timer in force.
abbrev pub step : Event → CanvasEscape → CanvasEscape
step (escape active) s = handle_canvas_escape active s
step other_key s = reset_sequence s
step pointer_down s = reset_sequence s
step timeout s = reset_sequence s
step unmount s = reset_sequence s

unfoldable pub run : List Event → CanvasEscape → CanvasEscape
run [] s = s
run (e ∷ es) s = run es (step e s)

abbrev pub idle : CanvasEscape
idle = record { count = 0; timer = false; gestures = [] }
