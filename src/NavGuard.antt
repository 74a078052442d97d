-- ===== src/NavGuard.antt =====
-- The guard of navigation, frontend/src/app/hooks/useNavGuard.tsx, before the save errors of
-- frontend/src/shared/stores/saveError.store.ts.  A destination, a page with its state, is opaque.
pub mod Laws
pub mod Examples
use yanta.Prelude.{Bool, true, false, Option, none, some, List, [], ◌∷◌, ◌++◌, if◌then◌else◌}

-- The hook's state, and the destinations that were navigated to, in their order.
pub record NavGuard (D : Type 0) : Type 0 where
  pub show_dialog : Bool
  pub pending : Option D
  pub visited : List D

module _ {D : Type 0} where
  -- `originalNavigate`
  abbrev pub navigate : D → NavGuard D → NavGuard D
  navigate d g = record g { visited = g.visited ++ (d ∷ []) }

  -- The first argument is the store's `hasDirtyError` at the time.
  unfoldable pub guarded_navigate : Bool → D → NavGuard D → NavGuard D
  guarded_navigate has_dirty_error d g =
      if has_dirty_error then record g { show_dialog = true; pending = some d } else navigate d g

  abbrev pub confirmed : Option D → NavGuard D → NavGuard D
  confirmed none g = g
  confirmed (some d) g = record (navigate d g) { pending = none }

  unfoldable pub confirm_navigation : NavGuard D → NavGuard D
  confirm_navigation g = confirmed g.pending (record g { show_dialog = false })

  unfoldable pub cancel_navigation : NavGuard D → NavGuard D
  cancel_navigation g = record g { show_dialog = false; pending = none }
