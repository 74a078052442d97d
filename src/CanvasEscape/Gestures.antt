-- ===== src/CanvasEscape/Gestures.antt =====
-- Which presses of Escape leave a canvas,
-- frontend/src/document/hooks/useCanvasEscapeSequence.ts.
use mathlib.Core.List.{append_assoc, append-nil}
use yanta.Prelude.{
  ℕ, ◌+◌, ◌%◌, ◌==◌, true, false, List, [], ◌∷◌, ◌++◌, arith, refl, sym, ap, ◌∙◌, ◌≡◌,
  if◌then◌else◌,
}
use yanta.CanvasEscape.{
  Gesture, yielded, unfocus, exit, Event, escape, other_key, pointer_down, timeout, unmount,
  CanvasEscape, handle_canvas_escape, step, run, idle,
}

-- The gesture of a press that comes after `n` others of the same series.
abbrev pub of_place : ℕ → Gesture
of_place n = if n % 3 == 0 then yielded else if n % 3 == 1 then unfocus else exit

-- The gestures that are meant: presses in the active pane are numbered from the last interruption
-- on, and every third of them leaves the canvas.
unfoldable pub meant : ℕ → List Event → List Gesture
meant n [] = []
meant n (escape true ∷ es) = of_place n ∷ meant (n + 1) es
meant n (escape false ∷ es) = meant n es
meant n (other_key ∷ es) = meant 0 es
meant n (pointer_down ∷ es) = meant 0 es
meant n (timeout ∷ es) = meant 0 es
meant n (unmount ∷ es) = meant 0 es

-- The count is the number of presses so far, by threes, and a timer runs with a series.
record At (n : ℕ) (s : CanvasEscape) : Type 0 where
  count : s.count ≡ n % 3
  timer : s.timer ≡ (if n % 3 == 0 then false else true)

At-start : (s : CanvasEscape) → s.count ≡ 0 → s.timer ≡ false → At 0 s
At-start s c t = record { count = c; timer = t }

handle_canvas_escape-At :
    (n : ℕ) (s : CanvasEscape)
    → At n s
    → At (n + 1) (handle_canvas_escape true s)
      × ((handle_canvas_escape true s).gestures ≡ s.gestures ++ (of_place n ∷ []))
unfolding handle_canvas_escape
handle_canvas_escape-At n s h = (
  record { count = ground (arith, h.count); timer = ground (arith, h.count) },
  ground (arith, h.count),
)

-- Every interruption starts a new series.
run-meant :
    (es : List Event) (n : ℕ) (s : CanvasEscape)
    → At n s
    → (run es s).gestures ≡ s.gestures ++ meant n es
unfolding run meant handle_canvas_escape
run-meant [] n s h = sym (append-nil s.gestures)
run-meant (escape true ∷ es) n s h =
    let press = handle_canvas_escape-At n s h in
    run-meant es (n + 1) (handle_canvas_escape true s) press.0
    ∙ ap (λ l. l ++ meant (n + 1) es) press.1
    ∙ append_assoc s.gestures (of_place n ∷ []) (meant (n + 1) es)
run-meant (escape false ∷ es) n s h = run-meant es n s h
run-meant (other_key ∷ es) n s h =
    run-meant es 0 (step other_key s) (At-start (step other_key s) refl refl)
run-meant (pointer_down ∷ es) n s h =
    run-meant es 0 (step pointer_down s) (At-start (step pointer_down s) refl refl)
run-meant (timeout ∷ es) n s h =
    run-meant es 0 (step timeout s) (At-start (step timeout s) refl refl)
run-meant (unmount ∷ es) n s h =
    run-meant es 0 (step unmount s) (At-start (step unmount s) refl refl)

-- On a canvas, whatever keys, presses of the pointer and timeouts come, the Escape presses in the
-- active pane since the last interruption are yielded, drop the focus and leave the canvas in
-- turn: no other press leaves it.
pub run-gestures : (es : List Event) → (run es idle).gestures ≡ meant 0 es
run-gestures es = run-meant es 0 idle (At-start idle refl refl)
