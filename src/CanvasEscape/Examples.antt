-- ===== src/CanvasEscape/Examples.antt =====
-- Leaving a canvas, frontend/src/document/hooks/useCanvasEscapeSequence.ts.
use yanta.Prelude.{true, false, List, [], ◌∷◌, refl, ◌≡◌}
use yanta.CanvasEscape.{
  yielded, unfocus, exit, Event, escape, other_key, handle_canvas_escape, run, idle,
}
use yanta.CanvasEscape.Gestures.{meant, run-gestures}

abbrev events : List Event
events =
    escape true
    ∷ escape true
    ∷ other_key
    ∷ escape true
    ∷ escape false
    ∷ escape true
    ∷ escape true
    ∷ escape true
    ∷ []

run-gestures_example : (run events idle).gestures ≡ meant 0 events
run-gestures_example = run-gestures events

triple : (run events idle).gestures ≡ yielded ∷ unfocus ∷ yielded ∷ unfocus ∷ exit ∷ yielded ∷ []
unfolding run handle_canvas_escape
triple = refl
