-- ===== src/NavGuard/Examples.antt =====
-- An editor fails to save, another one saves, and the user asks for a page and cancels.
use yanta.Prelude.{◌≡◌, refl, Bool, true, false, none, some, String, List, [], ◌∷◌}
use yanta.SaveErrors.{no_errors, set_error}
use yanta.SaveErrors.Isolation.{Call, set, clear, run}
use yanta.NavGuard.{guarded_navigate}
use yanta.NavGuard.Laws.{Event, ask, cancel, fresh_guard, guarded_navigate_after_failure}

abbrev events : List (Event String)
events = ask false "search" ∷ ask true "journal" ∷ cancel ∷ ask true "settings" ∷ []

abbrev after : List (Call Bool)
after = clear "b" ∷ set "c" "offline" none ∷ []

guarded_navigate_after_failure_example :
    guarded_navigate
      (run after (set_error "a" "no space" none (run [] no_errors))).has_dirty_error
      "search"
      (fresh_guard {D = String})
    ≡ record { show_dialog = true; pending = some "search"; visited = [] }
guarded_navigate_after_failure_example =
    guarded_navigate_after_failure [] after "a" "no space" none (refl, (refl, tt)) "search"
      fresh_guard
