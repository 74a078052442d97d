-- ===== src/Sync/Flights.antt =====
-- One synchronisation at a time, frontend/src/shared/stores/sync.store.ts.
use yanta.Prelude.{Bool, Option, ◌≡◌, if◌then◌else◌}
use yanta.Json.{Json}
use yanta.Sync.{SyncStore, read_persisted_last_sync}

module _ {Text : Type 0} (parse : Text → Option Json) (stringify : Json → Text)
    (is_empty : Text → Bool) where
  -- The backend runs one synchronisation while the store is in progress and none otherwise, as the
  -- monitor was told, and the storage has the synchronisation that is shown as the last one.
  pub record IsExclusive (s : SyncStore Text) : Type 0 where
    pub running : s.running ≡ (if s.in_progress then 1 else 0)
    pub monitored : s.monitored ≡ s.running
    pub stored : read_persisted_last_sync parse stringify is_empty s.stored ≡ s.last_synced
