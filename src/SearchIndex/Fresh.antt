-- ===== src/SearchIndex/Fresh.antt =====
-- The finder's index follows the vault, frontend/src/search-index/searchIndex.store.ts.
use yanta.Prelude.{◌+◌, true, false, some, List, [], ◌∷◌, arith, ◌≡◌, ◌⊎◌}
use yanta.SearchIndex.{
  IndexStatus, idle, building, ready, error, SearchIndex, build, schedule_rebuild, exported, Event,
  change, debounced, export_done, step, run,
}

-- What a state without a pending debounce owes: an index of the present vault, or a build that
-- reads it or will be followed by one.
abbrev Owes : IndexStatus → SearchIndex → Type 0
Owes idle s = s.vault ≡ 0
Owes building s = (s.rebuild_pending ≡ true) ⊎ (s.reading ≡ s.vault)
Owes ready s = s.indexed ≡ some s.vault
Owes error s = Unit

abbrev pub IsFresh : SearchIndex → Type 0
IsFresh s = (s.timer ≡ true) ⊎ Owes s.status s

-- A change, its debounce, and the exports of a running build and of the one after it.
abbrev pub settle : List Event
settle = change ∷ debounced ∷ export_done true ∷ export_done true ∷ []

-- After a change, once the debounce has ended and the exports succeed, of a build that was running
-- and of the one after it, the finder's index is ready and of the present vault.
pub run-settle :
    (s : SearchIndex)
    → ((run settle s).status ≡ ready)
      × ((run settle s).indexed ≡ some (s.vault + 1))
      × ((run settle s).timer ≡ false)
unfolding run step build schedule_rebuild exported
run-settle s = ground arith
