-- ===== src/SearchIndex.antt =====
-- The finder's index, frontend/src/search-index/searchIndex.store.ts: when it is built, and how a
-- query is answered. The vault is seen by a number that each change raises; an export reads the
-- vault as it is when the build starts.
pub mod Fresh
pub mod Query
pub mod Parser
pub mod Answers
pub mod Filters
pub mod Examples
use yanta.Prelude.{
  ℕ, zero, suc, ◌+◌, Bool, true, false, Option, none, some, List, [], ◌∷◌, if◌then◌else◌,
}

pub data IndexStatus : Type 0 where
  idle building ready error : IndexStatus

-- `indexed` is the vault of the index in use, `reading` the one that the running build reads;
-- `timer` is whether the debounce of `scheduleRebuild` is running.
pub record SearchIndex : Type 0 where
  pub status : IndexStatus
  pub rebuild_pending : Bool
  pub timer : Bool
  pub indexed : Option ℕ
  pub reading : ℕ
  pub vault : ℕ

-- The guard of `build`, then its first half, up to the export.
abbrev pub start_build : SearchIndex → SearchIndex
start_build s = record s { status = building; rebuild_pending = false; reading = s.vault }

abbrev pub build_in : IndexStatus → SearchIndex → SearchIndex
build_in building s = record s { rebuild_pending = true }
build_in idle s = start_build s
build_in ready s = start_build s
build_in error s = start_build s

unfoldable pub build : SearchIndex → SearchIndex
build s = build_in s.status s

unfoldable pub schedule_rebuild : SearchIndex → SearchIndex
schedule_rebuild s = record s { timer = true }

-- The `finally` of `build`.
abbrev pub finally : Bool → SearchIndex → SearchIndex
finally true s = build s
finally false s = s

-- The second half of `build`: the export was read, or it failed.
unfoldable pub exported : Bool → SearchIndex → SearchIndex
exported true s = finally s.rebuild_pending (record s { status = ready; indexed = some s.reading })
exported false s = finally s.rebuild_pending (record s { status = error })

pub data Event : Type 0 where
  change : Event
  debounced : Event
  build_call : Event
  export_done : Bool → Event

-- Events that the state does not have pending do nothing: no timer, no build.
abbrev pub answer : IndexStatus → Bool → SearchIndex → SearchIndex
answer building ok s = exported ok s
answer idle ok s = s
answer ready ok s = s
answer error ok s = s

abbrev pub fire : Bool → SearchIndex → SearchIndex
fire true s = build (record s { timer = false })
fire false s = s

unfoldable pub step : Event → SearchIndex → SearchIndex
step change s = schedule_rebuild (record s { vault = s.vault + 1 })
step debounced s = fire s.timer s
step build_call s = build s
step (export_done ok) s = answer s.status ok s

unfoldable pub run : List Event → SearchIndex → SearchIndex
run [] s = s
run (e ∷ es) s = run es (step e s)

abbrev pub unbuilt : SearchIndex
unbuilt = record {
  status = idle;
  rebuild_pending = false;
  timer = false;
  indexed = none;
  reading = 0;
  vault = 0;
}
