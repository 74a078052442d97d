-- ===== src/Pane/Occurrences.antt =====
-- How often an id is used in a tree, by any node and by leaves, and what that says of the queries
-- of frontend/src/pane/utils/paneTreeQueries.ts.
use yanta.Prelude.{
  ℕ, ◌+◌, ◌≤◌, ◌<◌, ◌≡◌, refl, ◌↔◌, Bool, true, false, Option, none, some, String, str_eq, eq_iff,
  arith, length, length-append,
}
use yanta.Pane.{
  SplitDirection, PaneLeaf, PaneNode, leaf, split, node_id, find_pane, count_leaves, get_leaves,
}

abbrev pub bit : Bool → ℕ
bit true = 1
bit false = 0

unfoldable pub occurs : String → PaneNode → ℕ
occurs x (leaf l) = bit (str_eq l.id x)
occurs x (split i _ a b _) = bit (str_eq i x) + occurs x a + occurs x b

unfoldable pub leaf_occurs : String → PaneNode → ℕ
leaf_occurs x (leaf l) = bit (str_eq l.id x)
leaf_occurs x (split _ _ a b _) = leaf_occurs x a + leaf_occurs x b

-- No two nodes of the tree have one id.
abbrev pub Distinct : PaneNode → Type 0
Distinct root = (x : String) → occurs x root ≤ 1

pub leaf_occurs-le-occurs : (x : String) (root : PaneNode) → leaf_occurs x root ≤ occurs x root
unfolding occurs leaf_occurs
leaf_occurs-le-occurs x (leaf l) = omega arith
leaf_occurs-le-occurs x (split i d a b s) =
    omega (arith, leaf_occurs-le-occurs x a, leaf_occurs-le-occurs x b)

pub count_leaves-pos : (root : PaneNode) → 0 < count_leaves root
unfolding count_leaves
count_leaves-pos (leaf l) = omega arith
count_leaves-pos (split i d a b s) = omega (arith, count_leaves-pos a)

-- `countLeaves` counts the leaves that `getLeaves` lists.
pub length-get_leaves : (root : PaneNode) → length (get_leaves root) ≡ count_leaves root
unfolding count_leaves get_leaves
length-get_leaves (leaf l) = refl
length-get_leaves (split i d a b s) =
    omega
      (arith, length-append (get_leaves a) (get_leaves b), length-get_leaves a, length-get_leaves b)

find_pane-eq-none : (root : PaneNode) (x : String) → find_pane root x ≡ none → occurs x root ≡ 0
unfolding occurs find_pane
find_pane-eq-none (leaf l) x h = ground arith
find_pane-eq-none (split i d a b s) x h =
    ground (arith, find_pane-eq-none a x, find_pane-eq-none b x)

pub find_pane_of_absent :
    (root : PaneNode) (x : String) → occurs x root ≡ 0 → find_pane root x ≡ none
unfolding occurs find_pane
find_pane_of_absent (leaf l) x h = ground arith
find_pane_of_absent (split i d a b s) x h =
    ground (arith, find_pane_of_absent a x, find_pane_of_absent b x)

-- A lookup fails exactly for the ids that no node of the tree has.
pub find_pane-eq-none_iff :
    (root : PaneNode) (x : String) → (find_pane root x ≡ none) ↔ (occurs x root ≡ 0)
find_pane-eq-none_iff root x = (find_pane-eq-none root x, find_pane_of_absent root x)

pub node_id-find_pane :
    (root : PaneNode) (x : String) {n : PaneNode} → find_pane root x ≡ some n → node_id n ≡ x
unfolding find_pane
node_id-find_pane (leaf l) x h = ground (arith, eq_iff l.id x)
node_id-find_pane (split i d a b s) x {n} h =
    ground (arith, eq_iff i x, node_id-find_pane a x {n = n}, node_id-find_pane b x {n = n})

pub leaf_occurs_of_find_pane :
    (root : PaneNode) (x : String) {l : PaneLeaf}
    → find_pane root x ≡ some (leaf l)
    → 0 < leaf_occurs x root
unfolding find_pane leaf_occurs
leaf_occurs_of_find_pane (leaf m) x h = ground arith
leaf_occurs_of_find_pane (split i d a b s) x {l} h =
    ground (arith, leaf_occurs_of_find_pane a x {l = l}, leaf_occurs_of_find_pane b x {l = l})

split_of_find_pane :
    (root : PaneNode) (x : String) {i : String} {d : SplitDirection} {a b : PaneNode} {s : ℕ × ℕ}
    → find_pane root x ≡ some (split i d a b s)
    → leaf_occurs x root < occurs x root
unfolding find_pane occurs leaf_occurs
split_of_find_pane (leaf m) x h = ground arith
split_of_find_pane (split j e l r z) x {i} {d} {a} {b} {s} h = ground (
  arith,
  leaf_occurs-le-occurs x l,
  leaf_occurs-le-occurs x r,
  split_of_find_pane l x {i = i} {d = d} {a = a} {b = b} {s = s},
  split_of_find_pane r x {i = i} {d = d} {a = a} {b = b} {s = s},
)

leaf_of_found :
    (root : PaneNode) (x : String) (o : Option PaneNode)
    → find_pane root x ≡ o
    → occurs x root ≤ 1
    → 0 < leaf_occurs x root
    → (l : PaneLeaf) × (o ≡ some (leaf l))
leaf_of_found root x (some (leaf l)) e h k = (l, refl)
leaf_of_found root x (some (split i d a b s)) e h k =
    absurd (omega (arith, split_of_find_pane root x e))
leaf_of_found root x none e h k =
    absurd (omega (arith, find_pane-eq-none root x e, leaf_occurs-le-occurs x root))

-- Where ids are not shared, the lookup of a leaf's id finds a leaf.
pub find_pane_of_leaf :
    (root : PaneNode) (x : String)
    → occurs x root ≤ 1
    → 0 < leaf_occurs x root
    → (l : PaneLeaf) × (find_pane root x ≡ some (leaf l))
find_pane_of_leaf root x h k = leaf_of_found root x (find_pane root x) refl h k
