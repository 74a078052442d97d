-- ===== src/Pane/Reducer/Opening.antt =====
-- The action SPLIT_AND_OPEN_DOCUMENT: which pane shows the document, and which is active.
use yanta.Prelude.{
  ℕ, ◌<◌, ◌≡◌, refl, sym, ap, ◌∙◌, false, none, some, List, [], ◌∷◌, map, String, eq_iff, arith,
}
use mathlib.Core.Path.{subst}
use yanta.Pane.{
  SplitDirection, PaneLeaf, PaneNode, get_leaves, count_leaves, has_leaf, max_panes,
  open_document_in_pane, kept,
}
use yanta.Pane.Occurrences.{leaf_occurs, leaf_occurs-le-occurs}
use yanta.Pane.Documents.{
  at, show_document, get_leaves-map_leaves, open_document_in_pane-map_leaves,
}
use yanta.Pane.Splitting.{split_id, leaf_id, insert_after, empty_leaf, get_leaves-bind_leaves}
use yanta.Pane.Splitting.Outcome.{split_pane-changed, has_leaf-get_leaves}
use yanta.Pane.Reducer.{PaneLayoutState, split_and_open_document, pane_layout_reducer}
use yanta.Pane.Reducer.Validity.{IsValid}
use yanta.Pane.Reducer.Focus.{FreshIds, grown, grown-distinct, grown-leaf, new_pane-grown}

map-at-insert_after :
    (x j : String) (g : PaneLeaf → PaneLeaf) (new : PaneLeaf) (ls : List PaneLeaf)
    → new.id ≡ j
    → has_leaf j ls ≡ false
    → map (at j g) (insert_after x new ls) ≡ insert_after x (g new) ls
unfolding insert_after
map-at-insert_after x j g new [] e h = refl
map-at-insert_after x j g new (l ∷ ls) e h =
    ground (arith, map-at-insert_after x j g new ls, eq_iff new.id j)

abbrev pub opened_leaf : String → String → PaneLeaf
opened_leaf id path = record { id = id; document_path = some path; scroll_position = none }

abbrev pub after_opening :
    (ℕ → ℕ) → ℕ → PaneLayoutState → String → SplitDirection → String → PaneLayoutState
after_opening clock n st x d path =
    (pane_layout_reducer clock st (split_and_open_document x d path) n).0

module _ (clock : ℕ → ℕ) (n : ℕ) {st : PaneLayoutState} (x : String) (d : SplitDirection)
    (path : String) (v : IsValid st) (fresh : FreshIds clock n st.root)
    (there : leaf_occurs x st.root ≡ 1) (below : count_leaves st.root < max_panes) where
  abbrev with_new : PaneNode
  with_new = grown clock n x d v fresh

  get_leaves-opened :
      get_leaves (kept with_new (open_document_in_pane with_new (leaf_id clock n) (some path)))
      ≡ insert_after x (opened_leaf (leaf_id clock n) path) (get_leaves st.root)
  get_leaves-opened =
      ap get_leaves (
        open_document_in_pane-map_leaves with_new (leaf_id clock n) (some path) (
          omega (
            arith,
            grown-distinct clock n x d v fresh (leaf_id clock n) there,
            grown-leaf clock n x d v fresh there,
          )))
      ∙ get_leaves-map_leaves (at (leaf_id clock n) (show_document (some path))) with_new
      ∙ ap (map (at (leaf_id clock n) (show_document (some path))))
          (get_leaves-bind_leaves x d (split_id clock n) (leaf_id clock n) st.root)
      ∙ map-at-insert_after x (leaf_id clock n) (show_document (some path))
          (empty_leaf (leaf_id clock n)) (get_leaves st.root) refl
          (ground (
            arith,
            has_leaf-get_leaves st.root (leaf_id clock n),
            leaf_occurs-le-occurs (leaf_id clock n) st.root,
            fresh.leaf_new,
          ))

  -- In a valid layout below the limit, with new ids and a leaf to split, splitting with a document
  -- makes the new pane the active one; it shows the document right behind the pane that was split,
  -- and every other pane shows what it showed.
  pub split_and_open_lem :
      ((after_opening clock n st x d path).active_pane_id ≡ leaf_id clock n)
      × (get_leaves (after_opening clock n st x d path).root
          ≡ insert_after x (opened_leaf (leaf_id clock n) path) (get_leaves st.root))
  unfolding pane_layout_reducer
  split_and_open_lem = rw (split_pane-changed clock x d st.root n (v.distinct x) there below) (
    new_pane-grown clock n x d v fresh there x,
    subst
        (λ j.
          get_leaves (kept with_new (open_document_in_pane with_new j (some path)))
          ≡ insert_after x (opened_leaf (leaf_id clock n) path) (get_leaves st.root))
        (sym (new_pane-grown clock n x d v fresh there x)) get_leaves-opened,
  )
