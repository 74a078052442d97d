-- ===== src/LeaderKeys/Examples.antt =====
-- `g j`, then `g` and a key that stands for no page, then `d` alone.
use yanta.Prelude.{◌≡◌, refl, false, String, List, [], ◌∷◌}
use yanta.LeaderKeys.{journal, Event, key_down, timeout, run, idle, on_key_down}
use yanta.LeaderKeys.Sequences.{pages, run-pages}

abbrev press : String → Event
press key = key_down (record {
  key = key;
  default_prevented = false;
  ctrl_key = false;
  meta_key = false;
  alt_key = false;
  editable_target = false;
})

abbrev same_case : String → String
same_case s = s

abbrev keys_pressed : List Event
keys_pressed =
    press "g" ∷ press "j" ∷ press "g" ∷ press "x" ∷ press "d" ∷ press "g" ∷ timeout ∷ press "s" ∷ []

run-pages_example : (run same_case keys_pressed idle).visited ≡ pages same_case keys_pressed
run-pages_example = run-pages same_case keys_pressed

only_the_journal : (run same_case keys_pressed idle).visited ≡ journal ∷ []
unfolding run on_key_down
only_the_journal = refl
