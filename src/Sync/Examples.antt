-- ===== src/Sync/Examples.antt =====
-- Synchronisations, frontend/src/shared/stores/sync.store.ts, with a storage that keeps the JSON values
-- themselves.
use yanta.Prelude.{Bool, false, Option, none, some, List, [], ◌∷◌, refl, ◌≡◌}
use yanta.Json.{Json}
use yanta.Sync.{
  Event, sync_now, answered, failed, run, step, created, read_persisted_last_sync,
  persist_last_sync, validate,
}

abbrev never_empty : Json → Bool
never_empty v = false

abbrev parsed : Json → Option Json
parsed v = some v

abbrev printed : Json → Json
printed v = v

abbrev events : List Event
events = sync_now ∷ sync_now ∷ answered 5 (failed "offline") ∷ sync_now ∷ []

-- The second call while one is running starts nothing, and the error is on record.
one_at_a_time :
    ((run parsed printed never_empty
        (sync_now ∷ sync_now ∷ [])
        (created parsed printed never_empty none)).running
      ≡ 1)
    × ((run parsed printed never_empty events (created parsed printed never_empty none)).last_error
        ≡ some "offline")
    × ((run parsed printed never_empty events (created parsed printed never_empty none)).running
        ≡ 1)
unfolding run step read_persisted_last_sync persist_last_sync validate
one_at_a_time = (refl, refl, refl)
