-- ===== src/Pane/Storage.antt =====
-- The layouts of the documents in the browser's storage: frontend/src/pane/utils/paneLayoutValidation.ts
-- and frontend/src/shared/stores/paneLayout.store.ts.  Any field of what is stored may be missing; the
-- fields that are there have the types that the code casts them to.
pub mod Saved
pub mod Examples
use yanta.Prelude.{
  ℕ, Bool, true, false, not, ◌&&◌, ◌||◌, Option, none, some, String, str_eq, leb, ◌==◌, length,
  List, [], ◌∷◌, lookup, insert, erase, if◌then◌else◌,
}
use yanta.Pane.{
  SplitDirection, ScrollPosition, PaneLeaf, PaneNode, leaf, split, max_panes, get_leaves, find_pane,
}
use yanta.Pane.Reducer.{PaneLayoutState, create_default_pane_layout}

pub record StoredFields : Type 0 where
  pub kind : Option String
  pub id : Option String
  pub direction : Option SplitDirection
  pub sizes : Option (ℕ × ℕ)
  pub document_path : Option String
  pub scroll_position : Option ScrollPosition

-- `childless` is a node without a pair of children, `nothing` no node at all.
pub data StoredNode : Type 0 where
  nothing : StoredNode
  childless : StoredFields → StoredNode
  with_children : StoredFields → StoredNode → StoredNode → StoredNode

abbrev pub truthy : Option String → Bool
truthy none = false
truthy (some s) = not (str_eq s "")

abbrev pub is_there {ℓ} : {A : Type ℓ} → Option A → Bool
is_there none = false
is_there (some a) = true

abbrev pub has_kind : String → StoredFields → Bool
has_kind kind f = elim f.kind [ none ↦ false | some k ↦ str_eq k kind ]

abbrev pub named : StoredFields → Bool
named f = truthy f.kind && truthy f.id

unfoldable pub validate_node : StoredNode → Bool
validate_node nothing = false
validate_node (childless f) = named f && has_kind "leaf" f
validate_node (with_children f a b) =
    let below = validate_node a && validate_node b in
    if named f
    then if has_kind "leaf" f
      then true
      else if has_kind "split" f
      then is_there f.direction && (is_there f.sizes && below)
      else false
    else false

abbrev pub text_or_empty : Option String → String
text_or_empty none = ""
text_or_empty (some s) = s

abbrev pub as_leaf : StoredFields → PaneNode
as_leaf f = leaf (record {
  id = text_or_empty f.id;
  document_path = f.document_path;
  scroll_position = f.scroll_position;
})

abbrev pub join : StoredFields → Option PaneNode → Option PaneNode → Option PaneNode
join f (some a) (some b) = elim f.direction [
  | none ↦ none
  | some d ↦ elim f.sizes [ none ↦ none | some s ↦ some (split (text_or_empty f.id) d a b s) ]
]
join f _ _ = none

-- The cast of the stored data: the tree that it stands for, where it is one.
unfoldable pub as_pane_node : StoredNode → Option PaneNode
as_pane_node nothing = none
as_pane_node (childless f) = if has_kind "leaf" f then some (as_leaf f) else none
as_pane_node (with_children f a b) =
    let below = join f (as_pane_node a) (as_pane_node b) in
    if has_kind "leaf" f then some (as_leaf f) else below

abbrev pub is_leaf : Option PaneNode → Bool
is_leaf (some (leaf l)) = true
is_leaf (some (split i d a b s)) = false
is_leaf none = false

abbrev pub fits : PaneNode → String → Bool
fits root active =
    not (length (get_leaves root) == 0)
    && (leb (length (get_leaves root)) max_panes && is_leaf (find_pane root active))

abbrev pub tree_fits : Option PaneNode → String → Bool
tree_fits none active = false
tree_fits (some root) active = fits root active

unfoldable pub validate_layout : StoredNode → String → Bool
validate_layout root active =
    not (str_eq active "") && (validate_node root && tree_fits (as_pane_node root) active)

abbrev pub as_layout : Option PaneNode → String → PaneLayoutState
as_layout none active = create_default_pane_layout
as_layout (some root) active = record {
  root = root;
  active_pane_id = active;
  primary_document_path = none;
}

unfoldable pub restore_layout : StoredNode → String → PaneLayoutState
restore_layout root active =
    if validate_layout root active
    then as_layout (as_pane_node root) active
    else create_default_pane_layout

pub record PersistedLayoutEntry : Type 0 where
  pub root : StoredNode
  pub active_pane_id : Option String

abbrev pub kind_fields : String → String → StoredFields
kind_fields kind id = record {
  kind = some kind;
  id = some id;
  direction = none;
  sizes = none;
  document_path = none;
  scroll_position = none;
}

-- A tree as the plain data that it is.
unfoldable pub as_stored : PaneNode → StoredNode
as_stored (leaf l) = childless (record (kind_fields "leaf" l.id) {
  document_path = l.document_path;
  scroll_position = l.scroll_position;
})
as_stored (split i d a b s) =
    with_children (record (kind_fields "split" i) { direction = some d; sizes = some s })
      (as_stored a) (as_stored b)

unfoldable pub save_layout_for_document :
    String
    → PaneLayoutState
    → List (String × PersistedLayoutEntry)
    → List (String × PersistedLayoutEntry)
save_layout_for_document doc_path st layouts =
    insert doc_path (record { root = as_stored st.root; active_pane_id = some st.active_pane_id })
      layouts

unfoldable pub clear_layout_for_document :
    String → List (String × PersistedLayoutEntry) → List (String × PersistedLayoutEntry)
clear_layout_for_document doc_path layouts = erase doc_path layouts

abbrev pub is_nothing : StoredNode → Bool
is_nothing nothing = true
is_nothing (childless f) = false
is_nothing (with_children f a b) = false

abbrev pub restore_root : String → StoredNode → Option String → Option PaneLayoutState
restore_root doc_path root none = none
restore_root doc_path root (some active) =
    if is_nothing root
    then none
    else some (record (restore_layout root active) { primary_document_path = some doc_path })

abbrev pub restore_entry : String → Option PersistedLayoutEntry → Option PaneLayoutState
restore_entry doc_path none = none
restore_entry doc_path (some entry) = restore_root doc_path entry.root entry.active_pane_id

unfoldable pub get_layout_for_document :
    String → List (String × PersistedLayoutEntry) → Option PaneLayoutState
get_layout_for_document doc_path layouts = restore_entry doc_path (lookup doc_path layouts)
