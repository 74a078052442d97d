-- ===== src/Pane/Navigation.antt =====
-- Moving between panes: frontend/src/pane/utils/paneNavigation.ts, and `getPathToLeaf` of
-- frontend/src/pane/utils/paneTreeQueries.ts, which it uses.
pub mod Cycle
pub mod Direction
use yanta.Prelude.{
  ℕ, zero, suc, ◌+◌, ◌-◌, ◌%◌, Bool, true, false, ◌&&◌, not, Option, none, some, List, [], ◌∷◌,
  String, str_eq, leb, if◌then◌else◌, length, get_elem?, last?, find,
}
use mathlib.Core.Option
use yanta.Pane.{SplitDirection, horizontal, vertical, PaneLeaf, PaneNode, leaf, split, get_leaves}

-- `findIndex`, with `none` for -1
unfoldable pub find_index : (PaneLeaf → Bool) → List PaneLeaf → Option ℕ
find_index p [] = none
find_index p (l ∷ ls) =
    let later = Option.map suc (find_index p ls) in if p l then some 0 else later

-- `leaves[i].id`
abbrev pub id_at : List PaneLeaf → ℕ → Option String
id_at leaves i = Option.map (λ l. l.id) (get_elem? leaves i)

abbrev pub next_index : ℕ → Option ℕ → ℕ
next_index count none = 0
next_index count (some i) = (i + 1) % count

abbrev pub previous_index : ℕ → Option ℕ → ℕ
previous_index count none = 0
previous_index count (some i) = (i + count - 1) % count

unfoldable pub get_next_leaf_id : PaneNode → String → Option String
get_next_leaf_id root current =
    let leaves = get_leaves root in
    let index = find_index (λ l. str_eq l.id current) leaves in
    if leb (length leaves) 1 then none else id_at leaves (next_index (length leaves) index)

unfoldable pub get_previous_leaf_id : PaneNode → String → Option String
get_previous_leaf_id root current =
    let leaves = get_leaves root in
    let index = find_index (λ l. str_eq l.id current) leaves in
    if leb (length leaves) 1 then none else id_at leaves (previous_index (length leaves) index)

-- A step of a path: a split, by its direction and children, and whether the second child was taken.
pub record PathStep : Type 0 where
  pub direction : SplitDirection
  pub first : PaneNode
  pub second : PaneNode
  pub took_second : Bool

abbrev pub step : SplitDirection → PaneNode → PaneNode → Bool → PathStep
step d a b taken = record { direction = d; first = a; second = b; took_second = taken }

abbrev pub path_below :
    SplitDirection
    → PaneNode
    → PaneNode
    → Option (List PathStep)
    → Option (List PathStep)
    → Option (List PathStep)
path_below d a b (some p) _ = some (step d a b false ∷ p)
path_below d a b none (some p) = some (step d a b true ∷ p)
path_below d a b none none = none

unfoldable pub get_path_to_leaf : PaneNode → String → Option (List PathStep)
get_path_to_leaf (leaf l) x = if str_eq l.id x then some [] else none
get_path_to_leaf (split i d a b s) x =
    path_below d a b (get_path_to_leaf a x) (get_path_to_leaf b x)

pub data PaneDirection : Type 0 where
  left right up down : PaneDirection

abbrev pub is_horizontal : SplitDirection → Bool
is_horizontal horizontal = true
is_horizontal vertical = false

-- The split that the search of a direction looks for on the path, and where it then goes.
abbrev pub leads : PaneDirection → PathStep → Bool
leads left s = is_horizontal s.direction && s.took_second
leads right s = is_horizontal s.direction && not s.took_second
leads up s = not (is_horizontal s.direction) && s.took_second
leads down s = not (is_horizontal s.direction) && not s.took_second

abbrev pub id_of : Option PaneLeaf → Option String
id_of = Option.map (λ l. l.id)

abbrev pub entry : PaneDirection → PathStep → Option String
entry left s = id_of (last? (get_leaves s.first))
entry right s = id_of (get_elem? (get_leaves s.second) 0)
entry up s = id_of (last? (get_leaves s.first))
entry down s = id_of (get_elem? (get_leaves s.second) 0)

abbrev pub along : PaneDirection → Option (List PathStep) → Option String
along d none = none
along d (some path) = elim (find (leads d) path) [ none ↦ none | some s ↦ entry d s ]

unfoldable pub get_pane_in_direction : PaneNode → String → PaneDirection → Option String
get_pane_in_direction root current d = along d (get_path_to_leaf root current)
