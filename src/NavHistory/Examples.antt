-- ===== src/NavHistory/Examples.antt =====
-- Two pages opened, one step back.
use yanta.Prelude.{List, [], ◌∷◌}
use yanta.NavHistory.Mirror.{Event, push, back}

abbrev back_once : List Event
back_once = push "search" ∷ push "journal" ∷ back ∷ []
