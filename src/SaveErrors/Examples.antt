-- ===== src/SaveErrors/Examples.antt =====
-- Two editors, one of which recovers.
use yanta.Prelude.{◌≡◌, refl, Bool, true, none, List, [], ◌∷◌}
use yanta.SaveErrors.{no_errors, any_dirty, set_error, clear_error}
use yanta.SaveErrors.Isolation.{Call, set, clear, call, run}

abbrev two_failures : List (Call Bool)
two_failures = set "left" "disk full" none ∷ set "right" "offline" none ∷ clear "left" ∷ []

still_dirty_test : (run two_failures no_errors).has_dirty_error ≡ true
unfolding run call set_error clear_error any_dirty
still_dirty_test = refl
