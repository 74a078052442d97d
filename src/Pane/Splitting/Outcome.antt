-- ===== src/Pane/Splitting/Outcome.antt =====
-- Whether `splitPane` gives back the tree that it was given, and the first leaf that is new.
use yanta.Prelude.{
  ◌⊎◌, ℕ, ◌≤◌, ◌<◌, ◌≡◌, refl, ap, Bool, true, false, not, Option, none, some, List, [], ◌∷◌, ◌++◌,
  ◌||◌, String, eq_refl, arith, find, ltb, All, All-map,
}
use yanta.Pane.{
  SplitDirection, PaneLeaf, PaneNode, leaf, split, kept, get_leaves, count_leaves, replace_node,
  split_leaf, max_panes, split_pane, has_leaf,
}
use yanta.Pane.Occurrences.{occurs, leaf_occurs}
use yanta.Pane.Splitting.{
  bind_leaves, beside, leaf_id, split_id, split_pane-bind_leaves, count_leaves-bind_leaves,
  insert_after, empty_leaf, get_leaves-bind_leaves,
}

module _ (clock : ℕ → ℕ) (x : String) (d : SplitDirection) where
  replace_node_of_no_leaf :
      (root : PaneNode) (n : ℕ)
      → leaf_occurs x root ≡ 0
      → replace_node root x (split_leaf clock d) n ≡ (none, n)
  unfolding replace_node split_leaf leaf_occurs
  replace_node_of_no_leaf (leaf l) n h = ground arith
  replace_node_of_no_leaf (split i e a b s) n h =
      ground (arith, replace_node_of_no_leaf a n, replace_node_of_no_leaf b n)

  -- With no leaf of the id, or at the limit, the tree is given back and no id is drawn.
  pub split_pane-unchanged :
      (root : PaneNode) (n : ℕ)
      → (leaf_occurs x root ≡ 0) ⊎ (max_panes ≤ count_leaves root)
      → split_pane clock root x d n ≡ (none, n)
  unfolding split_pane
  split_pane-unchanged root n h = ground (arith, replace_node_of_no_leaf root n)

  some_of_kept :
      (root r : PaneNode) (o : Option PaneNode)
      → kept root o ≡ r
      → count_leaves root < count_leaves r
      → o ≡ some r
  some_of_kept root r none e h = absurd (omega (arith, ap count_leaves e))
  some_of_kept root r (some q) e h = ap some e

  -- Otherwise the new tree is the one with the leaf split.
  pub split_pane-changed :
      (root : PaneNode) (n : ℕ)
      → occurs x root ≤ 1
      → leaf_occurs x root ≡ 1
      → count_leaves root < max_panes
      → (split_pane clock root x d n).0
        ≡ some (bind_leaves (beside x d (split_id clock n) (leaf_id clock n)) root)
  split_pane-changed root n h one below =
      some_of_kept root _ (split_pane clock root x d n).0
        (split_pane-bind_leaves clock x d root n h (omega arith) below)
        (omega (arith, count_leaves-bind_leaves x d (split_id clock n) (leaf_id clock n) root))

has_leaf-append :
    (x : String) (ls ms : List PaneLeaf) → has_leaf x (ls ++ ms) ≡ (has_leaf x ls || has_leaf x ms)
has_leaf-append x [] ms = refl
has_leaf-append x (l ∷ ls) ms = ground (arith, has_leaf-append x ls ms)

pub has_leaf-get_leaves :
    (root : PaneNode) (x : String) → has_leaf x (get_leaves root) ≡ ltb 0 (leaf_occurs x root)
unfolding get_leaves leaf_occurs
has_leaf-get_leaves (leaf l) x = ground arith
has_leaf-get_leaves (split i d a b s) x = ground (
  arith,
  has_leaf-append x (get_leaves a) (get_leaves b),
  has_leaf-get_leaves a x,
  has_leaf-get_leaves b x,
)

has_leaf_self : (ls : List PaneLeaf) → All (λ l. has_leaf l.id ls ≡ true) ls
has_leaf_self [] = tt
has_leaf_self (l ∷ ls) = (
  ground (arith, eq_refl l.id),
  All-map (λ m. has_leaf m.id ls ≡ true) (λ m. has_leaf m.id (l ∷ ls) ≡ true) (λ m h. ground arith)
      ls (has_leaf_self ls),
)

find-insert_after :
    (x : String) (new : PaneLeaf) (p : PaneLeaf → Bool) (ls : List PaneLeaf)
    → All (λ l. p l ≡ false) ls
    → p new ≡ true
    → has_leaf x ls ≡ true
    → find p (insert_after x new ls) ≡ some new
unfolding insert_after
find-insert_after x new p [] h k e = cc
find-insert_after x new p (l ∷ ls) h k e = ground (arith, find-insert_after x new p ls)

-- The first leaf that the old tree has not is the one that the split has made.
pub new_pane-bind_leaves :
    (x : String) (d : SplitDirection) (i j : String) (root : PaneNode)
    → leaf_occurs x root ≡ 1
    → leaf_occurs j root ≡ 0
    → find
        (λ l. not (has_leaf l.id (get_leaves root)))
        (get_leaves (bind_leaves (beside x d i j) root))
      ≡ some (empty_leaf j)
new_pane-bind_leaves x d i j root one fresh = rw (get_leaves-bind_leaves x d i j root) (
    find-insert_after x (empty_leaf j) (λ l. not (has_leaf l.id (get_leaves root)))
      (get_leaves root)
      (All-map (λ m. has_leaf m.id (get_leaves root) ≡ true)
        (λ m. not (has_leaf m.id (get_leaves root)) ≡ false) (λ m h. ground arith) (get_leaves root)
        (has_leaf_self (get_leaves root)))
      (ground (arith, has_leaf-get_leaves root j)) (ground (arith, has_leaf-get_leaves root x)))
