-- ===== src/Pane/Splitting.antt =====
-- What `splitPane` (frontend/src/pane/utils/paneTreeMutations.ts) makes of a tree in which no two
-- nodes have one id.
pub mod Outcome
use yanta.Prelude.{
  ℕ, ◌+◌, ◌*◌, ◌≤◌, ◌<◌, ◌≡◌, refl, ap, false, none, List, [], ◌∷◌, ◌++◌, String, str_eq, arith,
  if◌then◌else◌, inl, inr, Bool-cases, leb,
}
use mathlib.Core.Path.{ap₂}
use native.Mathlib.Decide.{ℕ_discrete, dec_lt}
use yanta.Pane.Ids.{generate_pane_id}
use yanta.Pane.{
  SplitDirection, PaneLeaf, PaneNode, leaf, split, kept, new_leaf, replace_node, get_leaves,
  count_leaves, split_leaf, split_pane, max_panes,
}
use yanta.Pane.Occurrences.{bit, occurs, leaf_occurs, leaf_occurs-le-occurs}
use yanta.Pane.Edits.{kept-rebuild, replace_node_of_absent}

-- A tree put in the place of each leaf.
unfoldable pub bind_leaves : (PaneLeaf → PaneNode) → PaneNode → PaneNode
bind_leaves g (leaf l) = g l
bind_leaves g (split i d a b s) = split i d (bind_leaves g a) (bind_leaves g b) s

-- The ids that a split draws when `n` ids have been drawn before.
abbrev pub split_id : (ℕ → ℕ) → ℕ → String
split_id clock n = (generate_pane_id clock n).0

abbrev pub leaf_id : (ℕ → ℕ) → ℕ → String
leaf_id clock n = (generate_pane_id clock (n + 1)).0

abbrev pub beside : String → SplitDirection → String → String → PaneLeaf → PaneNode
beside x d i j l = if str_eq l.id x then split i d (leaf l) (new_leaf j) (50, 50) else leaf l

module _ (x : String) (d : SplitDirection) (i j : String) where
  pub bind_leaves_of_absent :
      (root : PaneNode) → leaf_occurs x root ≡ 0 → bind_leaves (beside x d i j) root ≡ root
  unfolding bind_leaves leaf_occurs
  bind_leaves_of_absent (leaf l) h = ground arith
  bind_leaves_of_absent (split k e a b s) h =
      ap₂ (λ a' b'. split k e a' b' s) (bind_leaves_of_absent a (omega arith))
        (bind_leaves_of_absent b (omega arith))

  pub occurs-bind_leaves :
      (root : PaneNode) (y : String)
      → occurs y (bind_leaves (beside x d i j) root)
        ≡ occurs y root + leaf_occurs x root * (bit (str_eq i y) + bit (str_eq j y))
  unfolding bind_leaves occurs leaf_occurs
  occurs-bind_leaves (leaf l) y = ground arith
  occurs-bind_leaves (split k e a b s) y =
      grind (arith, occurs-bind_leaves a y, occurs-bind_leaves b y)

  pub leaf_occurs-bind_leaves :
      (root : PaneNode) (y : String)
      → leaf_occurs y (bind_leaves (beside x d i j) root)
        ≡ leaf_occurs y root + leaf_occurs x root * bit (str_eq j y)
  unfolding bind_leaves leaf_occurs
  leaf_occurs-bind_leaves (leaf l) y = ground arith
  leaf_occurs-bind_leaves (split k e a b s) y =
      grind (arith, leaf_occurs-bind_leaves a y, leaf_occurs-bind_leaves b y)

  pub count_leaves-bind_leaves :
      (root : PaneNode)
      → count_leaves (bind_leaves (beside x d i j) root) ≡ count_leaves root + leaf_occurs x root
  unfolding bind_leaves leaf_occurs count_leaves
  count_leaves-bind_leaves (leaf l) = ground arith
  count_leaves-bind_leaves (split k e a b s) =
      omega (arith, count_leaves-bind_leaves a, count_leaves-bind_leaves b)

-- A new leaf behind each leaf with the id.
unfoldable pub insert_after : String → PaneLeaf → List PaneLeaf → List PaneLeaf
insert_after x new [] = []
insert_after x new (l ∷ ls) =
    let rest = insert_after x new ls in if str_eq l.id x then l ∷ new ∷ rest else l ∷ rest

insert_after-append :
    (x : String) (new : PaneLeaf) (ls ms : List PaneLeaf)
    → insert_after x new (ls ++ ms) ≡ insert_after x new ls ++ insert_after x new ms
unfolding insert_after
insert_after-append x new [] ms = refl
insert_after-append x new (l ∷ ls) ms = ground (arith, insert_after-append x new ls ms)

abbrev pub empty_leaf : String → PaneLeaf
empty_leaf j = record { id = j; document_path = none; scroll_position = none }

pub get_leaves-bind_leaves :
    (x : String) (d : SplitDirection) (i j : String) (root : PaneNode)
    → get_leaves (bind_leaves (beside x d i j) root)
      ≡ insert_after x (empty_leaf j) (get_leaves root)
unfolding get_leaves bind_leaves insert_after
get_leaves-bind_leaves x d i j (leaf l) = ground arith
get_leaves-bind_leaves x d i j (split k e a b s) =
    simp (get_leaves-bind_leaves x d i j a, get_leaves-bind_leaves x d i j b, insert_after-append)

lt-not_leb : {n : ℕ} → n < max_panes → leb max_panes n ≡ false
lt-not_leb h = ground arith

module _ (clock : ℕ → ℕ) (x : String) (d : SplitDirection) where
  replace_node-split_leaf :
      (root : PaneNode) (n : ℕ)
      → occurs x root ≤ 1
      → occurs x root ≤ leaf_occurs x root
      → kept root (replace_node root x (split_leaf clock d) n).0
        ≡ bind_leaves (beside x d (split_id clock n) (leaf_id clock n)) root
  unfolding replace_node split_leaf bind_leaves occurs leaf_occurs generate_pane_id
  replace_node-split_leaf (leaf l) n h k = ground arith
  replace_node-split_leaf (split i e a b s) n h k = elim (Bool-cases (str_eq i x)) [
    | inl here ↦ absurd (ground (arith, leaf_occurs-le-occurs x a, leaf_occurs-le-occurs x b))
    | inr below ↦
        rw (below, kept-rebuild)
          (elim (ℕ_discrete (occurs x a) 0) [
            | yes absent ↦
                rw
                  (
                    replace_node_of_absent a x (split_leaf clock d) n absent,
                    bind_leaves_of_absent x d (split_id clock n) (leaf_id clock n) a
                        (omega (arith, leaf_occurs-le-occurs x a)),
                  )
                  (ap (λ b'. split i e a b' s)
                    (replace_node-split_leaf b n (ground arith)
                      (ground (arith, leaf_occurs-le-occurs x a))))
            | no present ↦
                rw
                  (
                    replace_node_of_absent b x (split_leaf clock d)
                        (replace_node a x (split_leaf clock d) n).1 (ground arith),
                    bind_leaves_of_absent x d (split_id clock n) (leaf_id clock n) b
                        (ground (arith, leaf_occurs-le-occurs x b)),
                  )
                  (ap (λ a'. split i e a' b s)
                    (replace_node-split_leaf a n (ground arith)
                      (ground (arith, leaf_occurs-le-occurs x b))))
          ])
  ]

  -- Below the limit, the leaf stays in the first child of a new split and an empty leaf is the
  -- second; the counter moves only if the leaf is there.
  pub split_pane-bind_leaves :
      (root : PaneNode) (n : ℕ)
      → occurs x root ≤ 1
      → occurs x root ≤ leaf_occurs x root
      → count_leaves root < max_panes
      → kept root (split_pane clock root x d n).0
        ≡ bind_leaves (beside x d (split_id clock n) (leaf_id clock n)) root
  unfolding split_pane
  split_pane-bind_leaves root n h k below =
      rw (lt-not_leb below) (replace_node-split_leaf root n h k)

  -- At the limit nothing is split and no id is drawn.
  pub split_pane_at_limit :
      (root : PaneNode) (n : ℕ)
      → max_panes ≤ count_leaves root
      → split_pane clock root x d n ≡ (none, n)
  unfolding split_pane
  split_pane_at_limit root n h = ground arith

  -- In a tree within the limit, where the id is shared by no two nodes and is no split's, a split
  -- leaves the number of panes within the limit.
  pub count_leaves-split_pane-le :
      (root : PaneNode) (n : ℕ)
      → occurs x root ≤ 1
      → occurs x root ≤ leaf_occurs x root
      → count_leaves root ≤ max_panes
      → count_leaves (kept root (split_pane clock root x d n).0) ≤ max_panes
  count_leaves-split_pane-le root n h k bound = elim (dec_lt (count_leaves root) max_panes) [
    | yes below ↦ rw (split_pane-bind_leaves root n h k below) (
        omega (
          arith,
          count_leaves-bind_leaves x d (split_id clock n) (leaf_id clock n) root,
          leaf_occurs-le-occurs x root,
        ))
    | no full ↦ rw (split_pane_at_limit root n (omega arith)) bound
  ]

  -- Below the limit, where the id is shared by no two nodes and is no split's, the new pane comes
  -- right behind the pane that was split, and all others stay, in reading order.
  pub get_leaves-split_pane :
      (root : PaneNode) (n : ℕ)
      → occurs x root ≤ 1
      → occurs x root ≤ leaf_occurs x root
      → count_leaves root < max_panes
      → get_leaves (kept root (split_pane clock root x d n).0)
        ≡ insert_after x (empty_leaf (leaf_id clock n)) (get_leaves root)
  get_leaves-split_pane root n h k below =
      rw (split_pane-bind_leaves root n h k below)
        (get_leaves-bind_leaves x d (split_id clock n) (leaf_id clock n) root)
