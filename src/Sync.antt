-- ===== src/Sync.antt =====
-- The state of git's synchronisation, frontend/src/shared/stores/sync.store.ts. The backend's answer,
-- the time, the storage's texts, JSON.parse (`none` where it throws), JSON.stringify and whether a
-- text is empty are given; a time is a finite number. `running` counts the calls of the backend that
-- have not come back, and `monitored` what the monitor was told of them. `setInProgress` and
-- `reset`, which nothing but the tests calls, are left out.
pub mod Flights
pub mod Examples
use yanta.Prelude.{
  ℕ, zero, suc, ◌+◌, ◌-◌, Bool, true, false, Option, none, some, String, List, [], ◌∷◌,
  if◌then◌else◌,
}
use yanta.Json.{Json, num, str, obj, Members, member, last, get}

-- An outcome is a status of the backend, a text, or "error".
pub record LastSync : Type 0 where
  pub at : ℕ
  pub status : String

abbrev last_sync_of : Option Json → Option Json → Option LastSync
last_sync_of (some (num at)) (some (str status)) = some (record { at = at; status = status })
last_sync_of at status = none

-- The test of `readPersistedLastSync`, on what was parsed.
unfoldable pub validate : Option Json → Option LastSync
validate (some (obj m)) = last_sync_of (get "at" m) (get "status" m)
validate other = none

abbrev pub to_json : LastSync → Json
to_json s = obj (member "at" (num s.at) (member "status" (str s.status) last))

pub record SyncStore (Text : Type 0) : Type 0 where
  pub in_progress : Bool
  pub last_synced : Option LastSync
  pub status : Option String
  pub last_error : Option String
  pub stored : Option Text
  pub running : ℕ
  pub monitored : ℕ

-- How a call of the backend ends: with no result, which counts as the status `SyncStatusSynced` of
-- the generated bindings, with a result's status, or with an error.
pub data Answer : Type 0 where
  no_result : String → Answer
  result : String → Answer
  failed : String → Answer

pub data Event : Type 0 where
  sync_now : Event
  answered : ℕ → Answer → Event
  refresh_status : Event
  set_last_sync : Option LastSync → Event
  set_last_error : Option String → Event

abbrev pub outcome : Answer → String
outcome (no_result synced) = synced
outcome (result status) = status
outcome (failed e) = "error"

abbrev pub error_of : Answer → Option String
error_of (no_result synced) = none
error_of (result status) = none
error_of (failed e) = some e

module _ {Text : Type 0} (parse : Text → Option Json) (stringify : Json → Text)
    (is_empty : Text → Bool) where
  unfoldable pub read_persisted_last_sync : Option Text → Option LastSync
  read_persisted_last_sync none = none
  read_persisted_last_sync (some raw) = if is_empty raw then none else validate (parse raw)

  unfoldable pub persist_last_sync : Option LastSync → Option Text
  persist_last_sync none = none
  persist_last_sync (some s) = some (stringify (to_json s))

  -- The guard, and the first half of `syncNow`.
  abbrev pub start : Bool → SyncStore Text → SyncStore Text
  start true s = s
  start false s = record s {
    in_progress = true;
    running = s.running + 1;
    monitored = s.monitored + 1;
  }

  -- The second half of `syncNow`, its `finally` included.
  abbrev pub finish : ℕ → Answer → SyncStore Text → SyncStore Text
  finish now a s = record s {
    in_progress = false;
    last_synced = some (record { at = now; status = outcome a });
    status = some (outcome a);
    last_error = error_of a;
    stored = persist_last_sync (some (record { at = now; status = outcome a }));
    running = s.running - 1;
    monitored = s.monitored - 1;
  }

  -- An answer comes only to a call that is running.
  abbrev pub answer_to : ℕ → ℕ → Answer → SyncStore Text → SyncStore Text
  answer_to zero now a s = s
  answer_to (suc n) now a s = finish now a s

  unfoldable pub step : Event → SyncStore Text → SyncStore Text
  step sync_now s = start s.in_progress s
  step (answered now a) s = answer_to s.running now a s
  step refresh_status s = record s { last_synced = read_persisted_last_sync s.stored }
  step (set_last_sync l) s = record s { last_synced = l; stored = persist_last_sync l }
  step (set_last_error e) s = record s { last_error = e }

  unfoldable pub run : List Event → SyncStore Text → SyncStore Text
  run [] s = s
  run (e ∷ es) s = run es (step e s)

  abbrev pub created : Option Text → SyncStore Text
  created stored = record {
    in_progress = false;
    last_synced = read_persisted_last_sync stored;
    status = none;
    last_error = none;
    stored = stored;
    running = 0;
    monitored = 0;
  }
