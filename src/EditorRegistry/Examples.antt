-- ===== src/EditorRegistry/Examples.antt =====
-- Runs of the editor's registries, and their theorems at a concrete plugin.
use yanta.Prelude.{ℕ, Option, some, List, [], ◌∷◌}
use yanta.EditorRegistry
use yanta.EditorRegistry.{collect_lists, merge_specs, collect_slash, collect_values, by_order}
use yanta.EditorRegistry.Coherence
use yanta.EditorRegistry.Coherence.{set_slash_menu, read_slash_menu, remove_all}
use yanta.EditorRegistry.Snapshots
use yanta.EditorRegistry.Snapshots.{run, snapshots_current}
use yanta.EditorRegistry.Removal.{IsUnloaded, remove_all-IsUnloaded}

-- Contributions are numbers; a slash menu item is its own order, and 9 has none.
abbrev order : ℕ → Option ℕ
order k = some k

abbrev Calls : Type 0
Calls = List (Coherence.Call ℕ ℕ ℕ ℕ ℕ ℕ ℕ ℕ order)

abbrev calls : Calls
calls =
    set_slash_menu "plugin:a" (5 ∷ 2 ∷ [])
    ∷ read_slash_menu
    ∷ set_slash_menu "plugin:b" (3 ∷ [])
    ∷ []

abbrev initial : EditorRegistry.Registry ℕ ℕ ℕ ℕ ℕ ℕ ℕ ℕ order
initial = Snapshots.initial ℕ ℕ ℕ ℕ ℕ ℕ ℕ ℕ order

snapshots_current_example :
    Snapshots.GivesCurrent ℕ ℕ ℕ ℕ ℕ ℕ ℕ ℕ order (run ℕ ℕ ℕ ℕ ℕ ℕ ℕ ℕ order initial calls)
snapshots_current_example = snapshots_current ℕ ℕ ℕ ℕ ℕ ℕ ℕ ℕ order calls

remove_all-IsUnloaded_example :
    IsUnloaded ℕ ℕ ℕ ℕ ℕ ℕ ℕ ℕ order "plugin:a" (run ℕ ℕ ℕ ℕ ℕ ℕ ℕ ℕ order initial calls) (
      EditorRegistry.remove_all_editor_plugin_contributions ℕ ℕ ℕ ℕ ℕ ℕ ℕ ℕ order "plugin:a"
        (run ℕ ℕ ℕ ℕ ℕ ℕ ℕ ℕ order initial calls))
remove_all-IsUnloaded_example =
    remove_all-IsUnloaded ℕ ℕ ℕ ℕ ℕ ℕ ℕ ℕ order "plugin:a" (run ℕ ℕ ℕ ℕ ℕ ℕ ℕ ℕ order initial calls)
