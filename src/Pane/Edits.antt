-- ===== src/Pane/Edits.antt =====
-- What `replaceNode` keeps, whatever the transform: stated once for a measure of trees.
use yanta.Prelude.{ℕ, ◌≡◌, refl, Option, none, some, String, str_eq, arith, inl, inr, Bool-cases}
use yanta.Pane.{
  SplitDirection, PaneNode, leaf, split, Transform, kept, rebuild, replace_node, edit_node,
  set_sizes, set_document, set_scroll, ScrollPosition, count_leaves,
}
use yanta.Pane.Occurrences.{occurs, leaf_occurs}

pub replace_node_of_absent :
    (root : PaneNode) (x : String) (t : Transform) (n : ℕ)
    → occurs x root ≡ 0
    → replace_node root x t n ≡ (none, n)
unfolding replace_node occurs
replace_node_of_absent (leaf l) x t n h = ground arith
replace_node_of_absent (split i d a b s) x t n h =
    ground (arith, replace_node_of_absent a x t n, replace_node_of_absent b x t n)

pub kept-rebuild :
    (i : String) (d : SplitDirection) (a b : PaneNode) (s : ℕ × ℕ) (o p : Option PaneNode)
    → kept (split i d a b s) (rebuild i d a b s o p) ≡ split i d (kept a o) (kept b p) s
kept-rebuild i d a b s none none = refl
kept-rebuild i d a b s none (some _) = refl
kept-rebuild i d a b s (some _) none = refl
kept-rebuild i d a b s (some _) (some _) = refl

module _ (μ : PaneNode → ℕ) (t : Transform)
    (additive : (i : String) (d : SplitDirection) (a b a' b' : PaneNode) (s : ℕ × ℕ)
      → μ a' ≡ μ a
      → μ b' ≡ μ b
      → μ (split i d a' b' s) ≡ μ (split i d a b s))
    (keeps : (m : PaneNode) (n : ℕ) → μ (kept m (t m n).0) ≡ μ m) where
  pub replace_node-keeps :
      (root : PaneNode) (x : String) (n : ℕ) → μ (kept root (replace_node root x t n).0) ≡ μ root
  unfolding replace_node
  replace_node-keeps (leaf l) x n = ground (arith, keeps (leaf l) n)
  replace_node-keeps (split i d a b s) x n = elim (Bool-cases (str_eq i x)) [
    | inl here ↦ rw here (keeps (split i d a b s) n)
    | inr below ↦
        rw (below, kept-rebuild)
          (additive i d a b _ _ s (replace_node-keeps a x n) (replace_node-keeps b x _))
  ]

-- The edits of `resizePane`, `openDocumentInPane` and `updateScrollPosition` change no id and keep
-- every leaf a leaf.
pub record KeepsIds (f : PaneNode → Option PaneNode) : Type 0 where
  pub all_ids : (x : String) (m : PaneNode) → occurs x (kept m (f m)) ≡ occurs x m
  pub leaf_ids : (x : String) (m : PaneNode) → leaf_occurs x (kept m (f m)) ≡ leaf_occurs x m
  pub leaves : (m : PaneNode) → count_leaves (kept m (f m)) ≡ count_leaves m

module _ {f : PaneNode → Option PaneNode} (k : KeepsIds f) (root : PaneNode) (x : String) where
  pub occurs-edit_node : (y : String) → occurs y (kept root (edit_node root x f)) ≡ occurs y root
  unfolding occurs
  occurs-edit_node y =
      replace_node-keeps (occurs y) (λ m n. (f m, n)) (λ i d a b a' b' s h h'. omega arith)
        (λ m n. k.all_ids y m) root x 0

  pub leaf_occurs-edit_node :
      (y : String) → leaf_occurs y (kept root (edit_node root x f)) ≡ leaf_occurs y root
  unfolding leaf_occurs
  leaf_occurs-edit_node y =
      replace_node-keeps (leaf_occurs y) (λ m n. (f m, n)) (λ i d a b a' b' s h h'. omega arith)
        (λ m n. k.leaf_ids y m) root x 0

  pub count_leaves-edit_node : count_leaves (kept root (edit_node root x f)) ≡ count_leaves root
  unfolding count_leaves
  count_leaves-edit_node =
      replace_node-keeps count_leaves (λ m n. (f m, n)) (λ i d a b a' b' s h h'. omega arith)
        (λ m n. k.leaves m) root x 0

pub set_sizes-KeepsIds : (sizes : ℕ × ℕ) → KeepsIds (set_sizes sizes)
unfolding occurs leaf_occurs count_leaves
set_sizes-KeepsIds sizes = record {
  all_ids = λ x. elim [ leaf l ↦ refl | split i d a b s ↦ refl ];
  leaf_ids = λ x. elim [ leaf l ↦ refl | split i d a b s ↦ refl ];
  leaves = elim [ leaf l ↦ refl | split i d a b s ↦ refl ];
}

pub set_document-KeepsIds : (path : Option String) → KeepsIds (set_document path)
unfolding occurs leaf_occurs count_leaves
set_document-KeepsIds path = record {
  all_ids = λ x. elim [ leaf l ↦ refl | split i d a b s ↦ refl ];
  leaf_ids = λ x. elim [ leaf l ↦ refl | split i d a b s ↦ refl ];
  leaves = elim [ leaf l ↦ refl | split i d a b s ↦ refl ];
}

pub set_scroll-KeepsIds : (position : ScrollPosition) → KeepsIds (set_scroll position)
unfolding occurs leaf_occurs count_leaves
set_scroll-KeepsIds position = record {
  all_ids = λ x. elim [ leaf l ↦ refl | split i d a b s ↦ refl ];
  leaf_ids = λ x. elim [ leaf l ↦ refl | split i d a b s ↦ refl ];
  leaves = elim [ leaf l ↦ refl | split i d a b s ↦ refl ];
}
