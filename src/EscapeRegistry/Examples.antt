-- ===== src/EscapeRegistry/Examples.antt =====
-- Escape with two handlers: the later one declines.
use yanta.Prelude.{ℕ, ◌≡◌, refl, Bool, false, Option, none, some, List, [], ◌∷◌}
use yanta.EscapeRegistry.{no_handlers, push, dispatch_escape}
use yanta.EscapeRegistry.Order.{Call, register, unregister, call, run}

abbrev closes : ℕ → Option Bool
closes e = none

abbrev declines : ℕ → Option Bool
declines e = some false

abbrev one_dialog : List (Call ℕ)
one_dialog = register declines ∷ unregister "escape-0" ∷ register closes ∷ []

dispatch_escape_test :
    dispatch_escape 0 (run (register closes ∷ register declines ∷ []) no_handlers) ≡ false
unfolding dispatch_escape push run call
dispatch_escape_test = refl
