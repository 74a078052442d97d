-- ===== src/Pane/Reducer.antt =====
-- The reducer of the pane layout, frontend/src/pane/context/PaneLayoutContext.tsx, and the default
-- layout of frontend/src/pane/types.ts. The counter of generated ids, a variable of paneId.ts, is
-- passed along.
pub mod Validity
pub mod Focus
pub mod Steps
pub mod Opening
use yanta.Prelude.{
  ℕ, ◌+◌, ◌≡◌, Bool, true, false, not, Option, none, some, List, [], ◌∷◌, String, str_eq,
  if◌then◌else◌, find,
}
use yanta.Pane.{
  SplitDirection, ScrollPosition, PaneLeaf, PaneNode, leaf, split, find_pane, get_leaves,
  split_pane, close_pane, resize_pane, open_document_in_pane, update_scroll_position,
  move_document_between_panes, swap_pane_documents, new_leaf, kept, has_leaf,
}

pub record PaneLayoutState : Type 0 where
  pub root : PaneNode
  pub active_pane_id : String
  pub primary_document_path : Option String

abbrev pub create_default_pane_layout : PaneLayoutState
create_default_pane_layout = record {
  root = new_leaf "pane-1";
  active_pane_id = "pane-1";
  primary_document_path = none;
}

pub data PaneLayoutAction : Type 0 where
  split_pane_at : String → SplitDirection → PaneLayoutAction
  split_and_open_document : String → SplitDirection → String → PaneLayoutAction
  close_pane_at : String → PaneLayoutAction
  resize : String → ℕ × ℕ → PaneLayoutAction
  open_document : String → Option String → PaneLayoutAction
  set_active_pane : String → PaneLayoutAction
  move_document : String → String → PaneLayoutAction
  swap_documents : String → String → PaneLayoutAction
  update_scroll : String → ScrollPosition → PaneLayoutAction
  restore_layout : PaneLayoutState → PaneLayoutAction
  reset_layout : Option String → PaneLayoutAction

-- The first leaf of the new tree whose id no leaf of the old tree has.
abbrev pub new_pane : PaneNode → PaneNode → Option PaneLeaf
new_pane old new = find (λ l. not (has_leaf l.id (get_leaves old))) (get_leaves new)

abbrev pub pane_id_or : Option PaneLeaf → String → String
pane_id_or none id = id
pane_id_or (some l) _ = l.id

-- `leaves[0].id`; a tree has a leaf, so the default is never taken.
unfoldable pub first_id : List PaneLeaf → String → String
first_id [] id = id
first_id (l ∷ _) _ = l.id

-- `if (newRoot === state.root) return state; return { ...state, root: newRoot }`
abbrev pub with_root : PaneLayoutState → Option PaneNode → PaneLayoutState
with_root st none = st
with_root st (some r) = record st { root = r }

abbrev pub after_split : PaneLayoutState → Option PaneNode → PaneLayoutState
after_split st none = st
after_split st (some r) = record st {
  root = r;
  active_pane_id = pane_id_or (new_pane st.root r) st.active_pane_id;
}

abbrev pub after_split_and_open :
    PaneLayoutState → String → String → Option PaneNode → PaneLayoutState
after_split_and_open st pane_id path none = st
after_split_and_open st pane_id path (some r) =
    let target = pane_id_or (new_pane st.root r) pane_id in
    record st {
      root = kept r (open_document_in_pane r target (some path));
      active_pane_id = target;
    }

abbrev pub after_close : PaneLayoutState → Option PaneNode → PaneLayoutState
after_close st none = st
after_close st (some r) = record st {
  root = r;
  active_pane_id =
      if has_leaf st.active_pane_id (get_leaves r)
      then st.active_pane_id
      else first_id (get_leaves r) st.active_pane_id;
}

abbrev pub activate : PaneLayoutState → String → Option PaneNode → PaneLayoutState
activate st pane_id (some (leaf _)) = record st { active_pane_id = pane_id }
activate st pane_id (some (split _ _ _ _ _)) = st
activate st pane_id none = st

unfoldable pub pane_layout_reducer :
    (ℕ → ℕ) → PaneLayoutState → PaneLayoutAction → ℕ → PaneLayoutState × ℕ
pane_layout_reducer clock st (split_pane_at pane_id d) n =
    let r = split_pane clock st.root pane_id d n in (after_split st r.0, r.1)
pane_layout_reducer clock st (split_and_open_document pane_id d path) n =
    let r = split_pane clock st.root pane_id d n in (after_split_and_open st pane_id path r.0, r.1)
pane_layout_reducer clock st (close_pane_at pane_id) n =
    (after_close st (close_pane st.root pane_id), n)
pane_layout_reducer clock st (resize split_id sizes) n =
    (with_root st (resize_pane st.root split_id sizes), n)
pane_layout_reducer clock st (open_document pane_id path) n =
    (with_root st (open_document_in_pane st.root pane_id path), n)
pane_layout_reducer clock st (set_active_pane pane_id) n = (
  (if str_eq st.active_pane_id pane_id
      then st
      else activate st pane_id (find_pane st.root pane_id)),
  n,
)
pane_layout_reducer clock st (move_document source target) n =
    (with_root st (move_document_between_panes st.root source target), n)
pane_layout_reducer clock st (swap_documents a b) n =
    (with_root st (swap_pane_documents st.root a b), n)
pane_layout_reducer clock st (update_scroll pane_id position) n =
    (with_root st (update_scroll_position st.root pane_id position), n)
pane_layout_reducer clock st (restore_layout saved) n = (saved, n)
pane_layout_reducer clock st (reset_layout path) n =
    (record create_default_pane_layout { primary_document_path = path }, n)
