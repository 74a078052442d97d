-- ===== src/Pane.antt =====
-- The pane layout of frontend/src/pane: the tree of types.ts, the queries of
-- utils/paneTreeQueries.ts and the mutations of utils/paneTreeMutations.ts.
-- Sizes and scroll offsets, which the code only stores, are natural numbers. The code compares
-- trees by reference (`newRoot === state.root`); here a mutation gives `none` where the code gives
-- back the very tree that it was given, and `some` of the new tree otherwise.
pub mod Ids
pub mod Occurrences
pub mod Edits
pub mod Documents
pub mod Splitting
pub mod Closing
pub mod Navigation
pub mod Reducer
pub mod Storage
pub mod Examples
use yanta.Prelude.{
  ℕ, ◌+◌, ◌≡◌, Bool, true, false, Option, none, some, List, [], ◌∷◌, ◌++◌, map, String, str_eq, leb,
  if◌then◌else◌, any,
}
use yanta.Pane.Ids.{generate_pane_id}

pub data SplitDirection : Type 0 where
  horizontal vertical : SplitDirection

pub record ScrollPosition : Type 0 where
  pub top : ℕ
  pub left : ℕ

pub record PaneLeaf : Type 0 where
  pub id : String
  pub document_path : Option String
  pub scroll_position : Option ScrollPosition

pub data PaneNode : Type 0 where
  leaf : PaneLeaf → PaneNode
  split : String → SplitDirection → PaneNode → PaneNode → ℕ × ℕ → PaneNode

abbrev pub max_panes : ℕ
max_panes = 4

abbrev pub node_id : PaneNode → String
node_id (leaf l) = l.id
node_id (split id _ _ _ _) = id

-- Queries.
pub find_pane : PaneNode → String → Option PaneNode
find_pane (leaf l) id = if str_eq l.id id then some (leaf l) else none
find_pane (split i d a b s) id =
    let left = find_pane a id in
    let right = find_pane b id in
    if str_eq i id then some (split i d a b s) else elim left [ some n ↦ some n | none ↦ right ]

pub count_leaves : PaneNode → ℕ
count_leaves (leaf _) = 1
count_leaves (split _ _ a b _) = count_leaves a + count_leaves b

pub get_leaves : PaneNode → List PaneLeaf
get_leaves (leaf l) = l ∷ []
get_leaves (split _ _ a b _) = get_leaves a ++ get_leaves b

abbrev non_null : List (Option String) → List String
non_null [] = []
non_null (none ∷ ps) = non_null ps
non_null (some p ∷ ps) = p ∷ non_null ps

pub get_leaf_paths : PaneNode → List String
unfolding get_leaves
get_leaf_paths root = non_null (map (λ l. l.document_path) (get_leaves root))

-- `leaves.some((leaf) => leaf.id === id)`
abbrev pub has_leaf : String → List PaneLeaf → Bool
has_leaf id = any (λ l. str_eq l.id id)

-- `replaceNode`. A transform may draw new ids, so it takes the counter of generated ids and gives
-- it back; `none` stands for the node itself.
abbrev pub Transform : Type 0
Transform = PaneNode → ℕ → Option PaneNode × ℕ

abbrev pub kept : PaneNode → Option PaneNode → PaneNode
kept n none = n
kept n (some m) = m

abbrev pub rebuild :
    String
    → SplitDirection
    → PaneNode
    → PaneNode
    → ℕ × ℕ
    → Option PaneNode
    → Option PaneNode
    → Option PaneNode
rebuild i d a b s none none = none
rebuild i d a b s none (some b') = some (split i d a b' s)
rebuild i d a b s (some a') none = some (split i d a' b s)
rebuild i d a b s (some a') (some b') = some (split i d a' b' s)

pub replace_node : PaneNode → String → Transform → ℕ → Option PaneNode × ℕ
replace_node (leaf l) target t n = if str_eq l.id target then t (leaf l) n else (none, n)
replace_node (split i d a b s) target t n =
    let first = replace_node a target t n in
    let second = replace_node b target t first.1 in
    if str_eq i target
    then t (split i d a b s) n
    else (rebuild i d a b s first.0 second.0, second.1)

-- The transform of `splitPane`: the leaf stays in the first child, the second is a new empty leaf.
abbrev pub new_leaf : String → PaneNode
new_leaf id = leaf (record { id = id; document_path = none; scroll_position = none })

pub split_leaf : (ℕ → ℕ) → SplitDirection → Transform
split_leaf clock d (split i e a b s) n = (none, n)
split_leaf clock d (leaf l) n =
    let (split_id, n₁) = generate_pane_id clock n in
    let (leaf_id, n₂) = generate_pane_id clock n₁ in
    (some (split split_id d (leaf l) (new_leaf leaf_id) (50, 50)), n₂)

pub split_pane : (ℕ → ℕ) → PaneNode → String → SplitDirection → ℕ → Option PaneNode × ℕ
split_pane clock root pane_id d n =
    if leb max_panes (count_leaves root)
    then (none, n)
    else replace_node root pane_id (split_leaf clock d) n

-- The parts of `closePaneInNode`: a child that is the leaf to close, and the search below.
abbrev pub is_leaf_with : String → PaneNode → Bool
is_leaf_with pane_id (leaf l) = str_eq l.id pane_id
is_leaf_with pane_id (split _ _ _ _ _) = false

abbrev pub close_below :
    String
    → SplitDirection
    → PaneNode
    → PaneNode
    → ℕ × ℕ
    → Option PaneNode
    → Option PaneNode
    → Option PaneNode
close_below i d a b s (some a') _ = some (split i d a' b s)
close_below i d a b s none (some b') = some (split i d a b' s)
close_below i d a b s none none = none

pub close_pane_in_node : PaneNode → String → Option PaneNode
close_pane_in_node (leaf _) pane_id = none
close_pane_in_node (split i d a b s) pane_id =
    let first = close_pane_in_node a pane_id in
    let second = close_pane_in_node b pane_id in
    if is_leaf_with pane_id a
    then some b
    else if is_leaf_with pane_id b
    then some a
    else close_below i d a b s first second

pub close_pane : PaneNode → String → Option PaneNode
close_pane (leaf _) pane_id = none
close_pane (split i d a b s) pane_id = close_pane_in_node (split i d a b s) pane_id

-- The mutations that draw no ids.
abbrev pub edit_node : PaneNode → String → (PaneNode → Option PaneNode) → Option PaneNode
edit_node root target f = (replace_node root target (λ node n. (f node, n)) 0).0

abbrev pub set_sizes : ℕ × ℕ → PaneNode → Option PaneNode
set_sizes sizes (leaf _) = none
set_sizes sizes (split i d a b _) = some (split i d a b sizes)

pub resize_pane : PaneNode → String → ℕ × ℕ → Option PaneNode
resize_pane root split_id sizes = edit_node root split_id (set_sizes sizes)

abbrev pub set_document : Option String → PaneNode → Option PaneNode
set_document path (leaf l) = some (leaf (record l { document_path = path }))
set_document path (split _ _ _ _ _) = none

pub open_document_in_pane : PaneNode → String → Option String → Option PaneNode
open_document_in_pane root pane_id path = edit_node root pane_id (set_document path)

abbrev pub set_scroll : ScrollPosition → PaneNode → Option PaneNode
set_scroll position (leaf l) = some (leaf (record l { scroll_position = some position }))
set_scroll position (split _ _ _ _ _) = none

pub update_scroll_position : PaneNode → String → ScrollPosition → Option PaneNode
update_scroll_position root pane_id position = edit_node root pane_id (set_scroll position)

-- Two edits in a row: the tree is the given one only if neither changed it.
abbrev pub then_edit : PaneNode → Option PaneNode → (PaneNode → Option PaneNode) → Option PaneNode
then_edit root none f = f root
then_edit root (some r) f = some (kept r (f r))

abbrev pub move_found : PaneNode → String → String → Option PaneNode → Option PaneNode
move_found root source target (some (leaf l)) =
    then_edit root (open_document_in_pane root source none)
      (λ r. open_document_in_pane r target l.document_path)
move_found root source target _ = none

pub move_document_between_panes : PaneNode → String → String → Option PaneNode
move_document_between_panes root source target =
    move_found root source target (find_pane root source)

abbrev pub swap_found :
    PaneNode → String → String → Option PaneNode → Option PaneNode → Option PaneNode
swap_found root a b (some (leaf l)) (some (leaf m)) =
    then_edit root (open_document_in_pane root a m.document_path)
      (λ r. open_document_in_pane r b l.document_path)
swap_found root a b _ _ = none

pub swap_pane_documents : PaneNode → String → String → Option PaneNode
swap_pane_documents root a b = swap_found root a b (find_pane root a) (find_pane root b)
