-- ===== src/Pane/Closing.antt =====
-- What `closePane` (frontend/src/pane/utils/paneTreeMutations.ts) makes of a tree.
use yanta.Prelude.{
  ◌⊎◌, ◌↔◌, ℕ, ◌≤◌, ◌<◌, ◌≡◌, refl, sym, ◌∙◌, ◌∙◌, Bool, true, false, not, none, some, List, [],
  ◌∷◌, ◌++◌, String, str_eq, eq_refl, arith, inl, inr, filter,
}
use mathlib.Core.Path.{ap₂}
use mathlib.Core.List.{append-nil}
use yanta.Pane.{
  SplitDirection, PaneLeaf, PaneNode, leaf, split, kept, get_leaves, count_leaves, max_panes,
  split_pane, is_leaf_with, close_pane_in_node, close_pane,
}
use yanta.Pane.Occurrences.{occurs, leaf_occurs, count_leaves-pos}
use yanta.Pane.Splitting.{
  bind_leaves, beside, bind_leaves_of_absent, leaf_id, split_id, split_pane-bind_leaves,
}

abbrev pub other_than : String → PaneLeaf → Bool
other_than x l = not (str_eq l.id x)

filter-append :
    (p : PaneLeaf → Bool) (ls ms : List PaneLeaf) → filter p (ls ++ ms) ≡ filter p ls ++ filter p ms
filter-append p [] ms = refl
filter-append p (l ∷ ls) ms = ground (arith, filter-append p ls ms)

filter_of_absent :
    (x : String) (root : PaneNode)
    → leaf_occurs x root ≡ 0
    → filter (other_than x) (get_leaves root) ≡ get_leaves root
unfolding leaf_occurs get_leaves
filter_of_absent x (leaf l) h = ground arith
filter_of_absent x (split i d a b s) h =
    filter-append (other_than x) (get_leaves a) (get_leaves b)
    ∙ ap₂ (λ l m. l ++ m) (filter_of_absent x a (omega arith)) (filter_of_absent x b (omega arith))

is_leaf_with_of_absent :
    (root : PaneNode) (x : String) → leaf_occurs x root ≡ 0 → is_leaf_with x root ≡ false
unfolding leaf_occurs
is_leaf_with_of_absent (leaf l) x h = ground arith
is_leaf_with_of_absent (split i d a b s) x h = refl

leaf_occurs_of_is_leaf_with :
    (root : PaneNode) (x : String) → is_leaf_with x root ≡ true → leaf_occurs x root ≡ 1
unfolding leaf_occurs
leaf_occurs_of_is_leaf_with (leaf l) x h = ground arith
leaf_occurs_of_is_leaf_with (split i d a b s) x h = cc

filter_of_is_leaf_with :
    (root : PaneNode) (x : String)
    → is_leaf_with x root ≡ true
    → filter (other_than x) (get_leaves root) ≡ []
unfolding get_leaves
filter_of_is_leaf_with (leaf l) x h = ground arith
filter_of_is_leaf_with (split i d a b s) x h = cc

pub close_of_absent :
    (root : PaneNode) (x : String) → leaf_occurs x root ≡ 0 → close_pane_in_node root x ≡ none
unfolding leaf_occurs close_pane_in_node
close_of_absent (leaf l) x h = refl
close_of_absent (split i d a b s) x h = ground (
  arith,
  close_of_absent a x,
  close_of_absent b x,
  is_leaf_with_of_absent a x,
  is_leaf_with_of_absent b x,
)

get_leaves-close :
    (root : PaneNode) (x : String)
    → leaf_occurs x root ≤ 1
    → is_leaf_with x root ≡ false
    → get_leaves (kept root (close_pane_in_node root x)) ≡ filter (other_than x) (get_leaves root)
unfolding leaf_occurs close_pane_in_node get_leaves
get_leaves-close (leaf l) x h k = ground arith
get_leaves-close (split i d a b s) x h k = ground (
  arith,
  filter-append (other_than x) (get_leaves a) (get_leaves b),
  append-nil (filter (other_than x) (get_leaves a)),
  filter_of_is_leaf_with a x,
  filter_of_is_leaf_with b x,
  leaf_occurs_of_is_leaf_with a x,
  leaf_occurs_of_is_leaf_with b x,
  filter_of_absent x a,
  filter_of_absent x b,
  close_of_absent a x,
  get_leaves-close a x,
  get_leaves-close b x,
)

-- Closing adds no id.
pub occurs-close-le :
    (root : PaneNode) (x y : String)
    → occurs y (kept root (close_pane_in_node root x)) ≤ occurs y root
unfolding occurs close_pane_in_node
occurs-close-le (leaf l) x y = omega arith
occurs-close-le (split i d a b s) x y = ground (arith, occurs-close-le a x y, occurs-close-le b x y)

pub count_leaves-close-le :
    (root : PaneNode) (x : String)
    → count_leaves (kept root (close_pane_in_node root x)) ≤ count_leaves root
unfolding count_leaves close_pane_in_node
count_leaves-close-le (leaf l) x = omega arith
count_leaves-close-le (split i d a b s) x =
    ground (arith, count_leaves-close-le a x, count_leaves-close-le b x)

-- In a split layout where at most one leaf has the id, closing the id takes that leaf out and
-- keeps the others, in their order.
pub get_leaves-close_pane :
    (i : String) (d : SplitDirection) (a b : PaneNode) (s : ℕ × ℕ) (x : String)
    → leaf_occurs x (split i d a b s) ≤ 1
    → get_leaves (kept (split i d a b s) (close_pane (split i d a b s) x))
      ≡ filter (other_than x) (get_leaves (split i d a b s))
unfolding close_pane
get_leaves-close_pane i d a b s x h = get_leaves-close (split i d a b s) x h refl

absent_of_close :
    (root : PaneNode) (x : String)
    → is_leaf_with x root ≡ false
    → close_pane_in_node root x ≡ none
    → leaf_occurs x root ≡ 0
unfolding close_pane_in_node leaf_occurs
absent_of_close (leaf l) x k h = ground arith
absent_of_close (split i d a b s) x k h = ground (arith, absent_of_close a x, absent_of_close b x)

close_pane-eq : (root : PaneNode) (x : String) → close_pane root x ≡ close_pane_in_node root x
unfolding close_pane close_pane_in_node
close_pane-eq (leaf l) x = refl
close_pane-eq (split i d a b s) x = refl

module _ (root : PaneNode) (x : String) {r : PaneNode} (closed : close_pane root x ≡ some r) where
  pub occurs-close_pane-le : (y : String) → occurs y r ≤ occurs y root
  occurs-close_pane-le y = rw (sym (close_pane-eq root x) ∙ closed) at (occurs-close-le root x y)

  pub count_leaves-close_pane-le : count_leaves r ≤ count_leaves root
  count_leaves-close_pane-le =
      rw (sym (close_pane-eq root x) ∙ closed) at (count_leaves-close-le root x)

to :
    (root : PaneNode) (x : String)
    → close_pane root x ≡ none
    → (count_leaves root ≡ 1) ⊎ (leaf_occurs x root ≡ 0)
unfolding close_pane count_leaves
to (leaf l) x h = inl refl
to (split i d a b s) x h = inr (absent_of_close (split i d a b s) x refl h)

from :
    (root : PaneNode) (x : String)
    → (count_leaves root ≡ 1) ⊎ (leaf_occurs x root ≡ 0)
    → close_pane root x ≡ none
unfolding close_pane count_leaves
from (leaf l) x h = refl
from (split i d a b s) x (inl one) = absurd (omega (arith, count_leaves-pos a, count_leaves-pos b))
from (split i d a b s) x (inr absent) = close_of_absent (split i d a b s) x absent

-- The layout is left as it is exactly if it has one pane only or no leaf with the id.
pub close_pane-eq-none_iff :
    (root : PaneNode) (x : String)
    → (close_pane root x ≡ none) ↔ ((count_leaves root ≡ 1) ⊎ (leaf_occurs x root ≡ 0))
close_pane-eq-none_iff root x = (to root x, from root x)

module _ (x : String) (d : SplitDirection) (i j : String) where
  grown_not_leaf :
      (root : PaneNode)
      → leaf_occurs x root ≡ 1
      → is_leaf_with j (bind_leaves (beside x d i j) root) ≡ false
  unfolding bind_leaves leaf_occurs
  grown_not_leaf (leaf l) h = ground arith
  grown_not_leaf (split m e a b s) h = refl

  close-bind_leaves :
      (root : PaneNode)
      → leaf_occurs x root ≡ 1
      → leaf_occurs j root ≡ 0
      → close_pane_in_node (bind_leaves (beside x d i j) root) j ≡ some root
  unfolding bind_leaves leaf_occurs close_pane_in_node
  close-bind_leaves (leaf l) h k = ground (arith, eq_refl j)
  close-bind_leaves (split m e a b s) h k = ground (
    arith,
    is_leaf_with_of_absent a j,
    is_leaf_with_of_absent b j,
    grown_not_leaf a,
    grown_not_leaf b,
    close_of_absent a j,
    bind_leaves_of_absent x d i j a,
    bind_leaves_of_absent x d i j b,
    close-bind_leaves a,
    close-bind_leaves b,
  )

-- Closing the pane that a split has just made gives back the tree before the split: below the
-- limit, for a leaf whose id no other node has, with a new id that no leaf has.
pub close_pane-split_pane :
    (clock : ℕ → ℕ) (root : PaneNode) (x : String) (d : SplitDirection) (n : ℕ)
    → occurs x root ≤ 1
    → leaf_occurs x root ≡ 1
    → leaf_occurs (leaf_id clock n) root ≡ 0
    → count_leaves root < max_panes
    → close_pane (kept root (split_pane clock root x d n).0) (leaf_id clock n) ≡ some root
close_pane-split_pane clock root x d n h one fresh below =
    rw (split_pane-bind_leaves clock x d root n h (omega arith) below) (
      close_pane-eq _ _ ∙ close-bind_leaves x d (split_id clock n) (leaf_id clock n) root one fresh)
