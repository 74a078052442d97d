-- ===== src/Progress/Examples.antt =====
-- The progress at work, frontend/src/shared/stores/progress.store.ts, with a storage that keeps the
-- JSON values themselves.
use yanta.Prelude.{Bool, false, Option, none, some, List, [], ◌∷◌, refl, ◌≡◌}
use yanta.Json.{Json, num, str, arr, obj, member, last, item, end}
use yanta.Persist.{Event, change, rehydrate, restart, replay, run}
use yanta.Progress.{
  UserProgressData, default_progress, Action, increment_documents_created, mark_hint, act, get_item,
  set_item, validate_progress_data, mark_hint_shown, has_hint_been_shown,
}
use yanta.Progress.Sessions.{AreHints, run_sessions, run_sessions-replay}

abbrev never_empty : Json → Bool
never_empty v = false

abbrev parsed : Json → Option Json
parsed v = some v

abbrev printed : Json → Json
printed v = v

abbrev merged : UserProgressData → Option UserProgressData → UserProgressData
merged c none = c
merged c (some d) = d

abbrev events : List (Event Action)
events =
    change increment_documents_created
    ∷ change (mark_hint "search")
    ∷ restart
    ∷ change (mark_hint "search")
    ∷ rehydrate
    ∷ []

run_sessions-replay_example :
    ((run_sessions parsed printed never_empty merged events).state
      ≡ replay act events default_progress)
    × AreHints (run_sessions parsed printed never_empty merged events).state.hints_shown
run_sessions-replay_example =
    run_sessions-replay parsed printed never_empty merged events (λ d. refl) (λ d. refl) (λ c. refl)
      (λ c d. refl)

one_hint :
    (run_sessions parsed printed never_empty merged events).state.hints_shown ≡ str "search" ∷ []
unfolding run get_item set_item validate_progress_data act mark_hint_shown has_hint_been_shown
one_hint = refl

-- The format of older versions, and a value that is no object.
flat_and_wrapped :
    (get_item parsed printed never_empty (some (obj (member "documentsCreated" (num 3) last)))
      ≡ some (record default_progress { documents_created = 3 }))
    × (get_item parsed printed never_empty
          (some (obj (member "state" (obj (member "projectsSwitched" (num 2) last)) last)))
        ≡ some (record default_progress { projects_switched = 2 }))
    × (get_item parsed printed never_empty (some (arr end)) ≡ none)
unfolding get_item validate_progress_data
flat_and_wrapped = (refl, refl, refl)

-- Hints that are no texts are taken over as they are.
unchecked_hints :
    get_item parsed printed never_empty
      (some (obj (member "hintsShown" (arr (item (num 7) end)) last)))
    ≡ some (record default_progress { hints_shown = num 7 ∷ [] })
unfolding get_item validate_progress_data
unchecked_hints = refl
