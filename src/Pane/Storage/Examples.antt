-- ===== src/Pane/Storage/Examples.antt =====
-- A default layout that is saved, and a stored tree that is cut short.
use yanta.Prelude.{◌≡◌, refl, none, some, String, List, [], ◌∷◌}
use yanta.Pane.Occurrences.{occurs}
use yanta.Pane.Reducer.{PaneLayoutState, create_default_pane_layout}
use yanta.Pane.Reducer.Steps.{default-IsValid}
use yanta.Pane.Storage.{
  nothing, childless, with_children, kind_fields, PersistedLayoutEntry, save_layout_for_document,
  get_layout_for_document, restore_layout, validate_layout, validate_node, as_pane_node,
}
use yanta.Pane.Storage.Saved.{get-save_layout_for_document}

abbrev cut_short : List (String × PersistedLayoutEntry)
cut_short =
    (
      "a.json",
      record {
        root = with_children (kind_fields "split" "s") (childless (kind_fields "leaf" "p")) nothing;
        active_pane_id = some "p";
      },
    )
    ∷ []

abbrev default_of_a : PaneLayoutState
default_of_a = record create_default_pane_layout { primary_document_path = some "a.json" }

falls_back : get_layout_for_document "a.json" cut_short ≡ some default_of_a
unfolding get_layout_for_document restore_layout validate_layout validate_node as_pane_node
falls_back = refl

no_empty_ids : occurs "" create_default_pane_layout.root ≡ 0
unfolding occurs
no_empty_ids = refl

get-save_layout_for_document_example :
    get_layout_for_document "a.json"
      (save_layout_for_document "a.json" create_default_pane_layout cut_short)
    ≡ some default_of_a
get-save_layout_for_document_example =
    get-save_layout_for_document "a.json" "a.json" create_default_pane_layout cut_short
      (default-IsValid none) no_empty_ids
