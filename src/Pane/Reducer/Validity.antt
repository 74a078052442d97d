-- ===== src/Pane/Reducer/Validity.antt =====
-- The invariant of the layout state, and that every action keeps it.
use yanta.Prelude.{
  ◌+◌, ◌≤◌, ◌<◌, ◌≡◌, refl, sym, ◌∙◌, Option, none, some, List, [], ◌∷◌, ◌++◌, String, eq_refl,
  length, arith,
}
use mathlib.Core.Path.{subst}
use yanta.Pane.{
  PaneLeaf, PaneNode, leaf, split, kept, get_leaves, count_leaves, find_pane, max_panes, close_pane,
  edit_node, then_edit, move_found, swap_found, open_document_in_pane, move_document_between_panes,
  swap_pane_documents,
}
use yanta.Pane.Occurrences.{
  occurs, leaf_occurs, Distinct, leaf_occurs_of_find_pane, length-get_leaves, count_leaves-pos,
}
use yanta.Pane.Edits.{
  KeepsIds, occurs-edit_node, leaf_occurs-edit_node, count_leaves-edit_node, set_document-KeepsIds,
}
use yanta.Pane.Splitting.Outcome.{has_leaf-get_leaves}
use yanta.Pane.Closing.{occurs-close_pane-le, count_leaves-close_pane-le}
use yanta.Pane.Reducer.{PaneLayoutState, with_root, after_close, activate, first_id}

-- No two nodes share an id, the active pane is a leaf of the tree, and the panes are within the
-- limit.
pub record IsValid (st : PaneLayoutState) : Type 0 where
  pub distinct : Distinct st.root
  pub active : 0 < leaf_occurs st.active_pane_id st.root
  pub bounded : count_leaves st.root ≤ max_panes

-- Two trees with the same ids, the same of leaves, and as many leaves.
pub record SameIds (r r' : PaneNode) : Type 0 where
  pub all_ids : (x : String) → occurs x r' ≡ occurs x r
  pub leaf_ids : (x : String) → leaf_occurs x r' ≡ leaf_occurs x r
  pub leaves : count_leaves r' ≡ count_leaves r

SameIds-refl : (r : PaneNode) → SameIds r r
SameIds-refl r = record { all_ids = λ x. refl; leaf_ids = λ x. refl; leaves = refl }

SameIds-trans : {r s t : PaneNode} → SameIds r s → SameIds s t → SameIds r t
SameIds-trans p q = record {
  all_ids = λ x. q.all_ids x ∙ p.all_ids x;
  leaf_ids = λ x. q.leaf_ids x ∙ p.leaf_ids x;
  leaves = q.leaves ∙ p.leaves;
}

pub edit_node-SameIds :
    {f : PaneNode → Option PaneNode} (k : KeepsIds f) (root : PaneNode) (x : String)
    → SameIds root (kept root (edit_node root x f))
edit_node-SameIds k root x = record {
  all_ids = occurs-edit_node k root x;
  leaf_ids = leaf_occurs-edit_node k root x;
  leaves = count_leaves-edit_node k root x;
}

pub open_document-SameIds :
    (root : PaneNode) (x : String) (path : Option String)
    → SameIds root (kept root (open_document_in_pane root x path))
unfolding open_document_in_pane
open_document-SameIds root x path = edit_node-SameIds (set_document-KeepsIds path) root x

then_edit-SameIds :
    (root : PaneNode) (o : Option PaneNode) (f : PaneNode → Option PaneNode)
    → SameIds root (kept root o)
    → ((r : PaneNode) → SameIds r (kept r (f r)))
    → SameIds root (kept root (then_edit root o f))
then_edit-SameIds root none f h k = k root
then_edit-SameIds root (some r) f h k = SameIds-trans h (k r)

pub move-SameIds :
    (root : PaneNode) (x y : String)
    → SameIds root (kept root (move_document_between_panes root x y))
unfolding move_document_between_panes
move-SameIds root x y = on_found (find_pane root x)
  where
    on_found : (o : Option PaneNode) → SameIds root (kept root (move_found root x y o))
    on_found (some (leaf l)) =
        then_edit-SameIds root (open_document_in_pane root x none)
          (λ r. open_document_in_pane r y l.document_path) (open_document-SameIds root x none)
          (λ r. open_document-SameIds r y l.document_path)
    on_found (some (split _ _ _ _ _)) = SameIds-refl root
    on_found none = SameIds-refl root

pub swap-SameIds :
    (root : PaneNode) (x y : String) → SameIds root (kept root (swap_pane_documents root x y))
unfolding swap_pane_documents
swap-SameIds root x y = on_found (find_pane root x) (find_pane root y)
  where
    on_found : (o p : Option PaneNode) → SameIds root (kept root (swap_found root x y o p))
    on_found (some (leaf l)) (some (leaf m)) =
        then_edit-SameIds root (open_document_in_pane root x m.document_path)
          (λ r. open_document_in_pane r y l.document_path)
          (open_document-SameIds root x m.document_path)
          (λ r. open_document-SameIds r y l.document_path)
    on_found _ _ = SameIds-refl root

pub with_root-IsValid :
    {st : PaneLayoutState} (o : Option PaneNode)
    → IsValid st
    → SameIds st.root (kept st.root o)
    → IsValid (with_root st o)
with_root-IsValid none v s = v
with_root-IsValid {st} (some r) v s = record {
  distinct = λ x. omega (arith, s.all_ids x, v.distinct x);
  active = omega (arith, s.leaf_ids st.active_pane_id, v.active);
  bounded = omega (arith, s.leaves, v.bounded);
}

pub activate-IsValid :
    {st : PaneLayoutState} (x : String) → IsValid st → IsValid (activate st x (find_pane st.root x))
activate-IsValid {st} x v = on_found (find_pane st.root x) refl
  where
    on_found : (o : Option PaneNode) → find_pane st.root x ≡ o → IsValid (activate st x o)
    on_found (some (leaf l)) e = record {
      distinct = v.distinct;
      active = leaf_occurs_of_find_pane st.root x e;
      bounded = v.bounded;
    }
    on_found (some (split _ _ _ _ _)) e = v
    on_found none e = v

first_id-append :
    (ls ms : List PaneLeaf) (x : String) → 0 < length ls → first_id (ls ++ ms) x ≡ first_id ls x
unfolding first_id
first_id-append [] ms x h = absurd (omega arith)
first_id-append (l ∷ ls) ms x h = refl

-- `leaves[0]` is a leaf of the tree.
first_id-get_leaves :
    (root : PaneNode) (x : String) → 0 < leaf_occurs (first_id (get_leaves root) x) root
unfolding get_leaves leaf_occurs first_id
first_id-get_leaves (leaf l) x = ground (arith, eq_refl l.id)
first_id-get_leaves (split i d a b s) x =
    subst (λ y. 0 < leaf_occurs y a + leaf_occurs y b)
      (sym (
        first_id-append (get_leaves a) (get_leaves b) x
          (omega (arith, length-get_leaves a, count_leaves-pos a))))
      (omega (arith, first_id-get_leaves a x))

pub after_close-IsValid :
    {st : PaneLayoutState} (x : String)
    → IsValid st
    → IsValid (after_close st (close_pane st.root x))
after_close-IsValid {st} x v = on_result (close_pane st.root x) refl
  where
    on_result : (o : Option PaneNode) → close_pane st.root x ≡ o → IsValid (after_close st o)
    on_result none e = v
    on_result (some r) e = record {
      distinct = λ y. omega (arith, occurs-close_pane-le st.root x e y, v.distinct y);
      active =
          ground (
            arith,
            has_leaf-get_leaves r st.active_pane_id,
            first_id-get_leaves r st.active_pane_id,
          );
      bounded = omega (arith, count_leaves-close_pane-le st.root x e);
    }
