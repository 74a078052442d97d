-- ===== src/AutoSave/Examples.antt =====
-- An edit during a save, and the save that follows it.
use yanta.Prelude.{◌≡◌, refl, true, false, List, [], ◌∷◌}
use yanta.AutoSave.{
  AutoSave, Event, value_changed, became_initialized, timer_fires, save_resolves, save_rejects,
  unmounted, run, step, value_effect, initialized, perform_save, save_succeeded, save_failed,
}
use yanta.AutoSave.Soundness.{unmounted-IsSound, run-IsSound}
use yanta.AutoSave.Progress.{drain, drain_lem}

abbrev opened : List Event
opened = value_changed "" false ∷ value_changed "v0" false ∷ became_initialized "v0" true ∷ []

abbrev edit_during_save : List Event
edit_during_save =
    value_changed "" false
    ∷ became_initialized "v0" true
    ∷ value_changed "v1" true
    ∷ timer_fires
    ∷ value_changed "v2" true
    ∷ []

edited : AutoSave
edited = run 3 edit_during_save unmounted

follow_up_test :
    (run 3 (save_resolves ∷ timer_fires ∷ save_resolves ∷ []) edited).last_saved_key ≡ "v2"
unfolding run step value_effect initialized perform_save save_succeeded edited
follow_up_test = refl

give_up_test : (run 0 (save_rejects ∷ []) edited).failed ≡ true
unfolding run step value_effect initialized perform_save save_failed edited
give_up_test = refl

drain_lem_example :
    (run 3 drain (run 3 edit_during_save unmounted)).last_saved_key
    ≡ (run 3 edit_during_save unmounted).current_key
unfolding run step value_effect initialized perform_save
drain_lem_example =
    drain_lem 3 (run 3 edit_during_save unmounted)
      (run-IsSound 3 edit_during_save unmounted unmounted-IsSound) refl refl
