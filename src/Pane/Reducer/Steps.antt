-- ===== src/Pane/Reducer/Steps.antt =====
-- Every action of the reducer keeps the layout valid, so every layout that a session reaches is.
use yanta.Prelude.{ℕ, Option, none, String, arith, eq_refl}
use yanta.Pane.{
  resize_pane, open_document_in_pane, update_scroll_position, move_document_between_panes,
  split_pane, swap_pane_documents, count_leaves,
}
use yanta.Pane.Occurrences.{occurs, leaf_occurs}
use yanta.Pane.Edits.{set_sizes-KeepsIds, set_scroll-KeepsIds}
use yanta.Pane.Reducer.{
  PaneLayoutState, create_default_pane_layout, PaneLayoutAction, split_pane_at,
  split_and_open_document, close_pane_at, resize, open_document, set_active_pane, move_document,
  swap_documents, update_scroll, restore_layout, reset_layout, pane_layout_reducer,
}
use yanta.Pane.Reducer.Validity.{
  IsValid, with_root-IsValid, activate-IsValid, after_close-IsValid, edit_node-SameIds,
  open_document-SameIds, move-SameIds, swap-SameIds,
}
use yanta.Pane.Reducer.Focus.{FreshIds, outcome, after_split-IsValid, after_split_and_open-IsValid}

-- What an action needs: a split draws ids that are not in the tree, and a layout that is restored
-- is valid. The other actions need nothing, whatever ids they name.
abbrev pub Admissible : (ℕ → ℕ) → ℕ → PaneLayoutState → PaneLayoutAction → Type 0
Admissible clock n st (split_pane_at _ _) = FreshIds clock n st.root
Admissible clock n st (split_and_open_document _ _ _) = FreshIds clock n st.root
Admissible clock n st (restore_layout saved) = IsValid saved
Admissible clock n st (close_pane_at _) = Unit
Admissible clock n st (resize _ _) = Unit
Admissible clock n st (open_document _ _) = Unit
Admissible clock n st (set_active_pane _) = Unit
Admissible clock n st (move_document _ _) = Unit
Admissible clock n st (swap_documents _ _) = Unit
Admissible clock n st (update_scroll _ _) = Unit
Admissible clock n st (reset_layout _) = Unit

pub default-IsValid :
    (path : Option String)
    → IsValid (record create_default_pane_layout { primary_document_path = path })
unfolding occurs leaf_occurs count_leaves
default-IsValid path = record {
  distinct = λ x. ground arith;
  active = ground (arith, eq_refl "pane-1");
  bounded = omega arith;
}

-- An admissible action makes a valid layout of a valid one.
pub pane_layout_reducer-IsValid :
    (clock : ℕ → ℕ) (n : ℕ) (st : PaneLayoutState) (action : PaneLayoutAction)
    → IsValid st
    → Admissible clock n st action
    → IsValid (pane_layout_reducer clock st action n).0
unfolding pane_layout_reducer
pane_layout_reducer-IsValid clock n st (split_pane_at x d) v h =
    after_split-IsValid clock n x d v h (split_pane clock st.root x d n).0 (outcome clock n x d v h)
pane_layout_reducer-IsValid clock n st (split_and_open_document x d path) v h =
    after_split_and_open-IsValid clock n x d v h path (split_pane clock st.root x d n).0
      (outcome clock n x d v h)
pane_layout_reducer-IsValid clock n st (close_pane_at x) v h = after_close-IsValid x v
pane_layout_reducer-IsValid clock n st (resize x sizes) v h =
    with_root-IsValid (resize_pane st.root x sizes) v
      (unfold resize_pane in edit_node-SameIds (set_sizes-KeepsIds sizes) st.root x)
pane_layout_reducer-IsValid clock n st (open_document x path) v h =
    with_root-IsValid (open_document_in_pane st.root x path) v
      (open_document-SameIds st.root x path)
pane_layout_reducer-IsValid clock n st (set_active_pane x) v h =
    ground (arith, activate-IsValid x v)
pane_layout_reducer-IsValid clock n st (move_document x y) v h =
    with_root-IsValid (move_document_between_panes st.root x y) v (move-SameIds st.root x y)
pane_layout_reducer-IsValid clock n st (swap_documents x y) v h =
    with_root-IsValid (swap_pane_documents st.root x y) v (swap-SameIds st.root x y)
pane_layout_reducer-IsValid clock n st (update_scroll x position) v h =
    with_root-IsValid (update_scroll_position st.root x position) v
      (unfold update_scroll_position in edit_node-SameIds (set_scroll-KeepsIds position) st.root x)
pane_layout_reducer-IsValid clock n st (restore_layout saved) v h = h
pane_layout_reducer-IsValid clock n st (reset_layout path) v h = default-IsValid path

-- The layouts that a session reaches, with the number of ids drawn so far.
pub data Reach (clock : ℕ → ℕ) : PaneLayoutState → ℕ → Type 0 where
  start : {n : ℕ} → Reach clock create_default_pane_layout n
  act :
      {st : PaneLayoutState} {n : ℕ}
      → Reach clock st n
      → (action : PaneLayoutAction) → Admissible clock n st action
      → Reach clock
          (pane_layout_reducer clock st action n).0
          (pane_layout_reducer clock st action n).1

-- Every layout that the reducer reaches from the default one, by any number of admissible actions,
-- is valid: ids are not shared, the active pane is a leaf of the layout, and there are at most
-- four panes. An action is admissible if a split draws ids that are not in the tree, and a
-- restored layout is itself valid.
pub Reach-IsValid : {clock : ℕ → ℕ} {st : PaneLayoutState} {n : ℕ} → Reach clock st n → IsValid st
Reach-IsValid start = default-IsValid none
Reach-IsValid {clock} (act {st} {n} r action h) =
    pane_layout_reducer-IsValid clock n st action (Reach-IsValid r) h
