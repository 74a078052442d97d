-- ===== src/NavHistory.antt =====
-- The navigation history's mirror, frontend/src/shared/stores/navHistory.store.ts, beside the
-- browser's own stack of entries that it mirrors.
pub mod Mirror
pub mod Examples
use yanta.Prelude.{ℕ, ◌+◌, max, Bool, ltb}

pub record NavHistory : Type 0 where
  pub index : ℕ
  pub max_index : ℕ

abbrev pub nav_start : NavHistory
nav_start = record { index = 0; max_index = 0 }

unfoldable pub record_push : NavHistory → NavHistory
record_push s =
    let next_index = s.index + 1 in record { index = next_index; max_index = next_index }

unfoldable pub record_pop_to : ℕ → NavHistory → NavHistory
record_pop_to i s = record { index = i; max_index = max s.max_index i }

unfoldable pub hydrate : ℕ → NavHistory → NavHistory
hydrate i s = record { index = i; max_index = i }

unfoldable pub select_can_go_back : NavHistory → Bool
select_can_go_back s = ltb 0 s.index

unfoldable pub select_can_go_forward : NavHistory → Bool
select_can_go_forward s = ltb s.index s.max_index
