-- ===== src/Pane/Examples.antt =====
-- Runs of the pane layout, and its theorems at concrete layouts.
use yanta.Prelude.{
  ℕ, ◌+◌, ◌≤◌, ◌<◌, ◌≡◌, refl, Option, none, some, [], ◌∷◌, String, arith, eq_iff, ne_of_str_eq,
  filter, map,
}
use yanta.Decimal.{show}
use yanta.Pane.Ids.{pane_id, generate_pane_id}
use yanta.Pane.{
  horizontal, vertical, PaneLeaf, PaneNode, leaf, split, find_pane, count_leaves, get_leaves,
  get_leaf_paths, replace_node, split_leaf, split_pane, close_pane_in_node, close_pane, resize_pane,
  open_document_in_pane, update_scroll_position, move_document_between_panes, swap_pane_documents,
  kept,
}
use yanta.Pane.Occurrences.{occurs, leaf_occurs, leaf_occurs-le-occurs, Distinct}
use yanta.Pane.Splitting.{insert_after, empty_leaf, leaf_id, get_leaves-split_pane}
use yanta.Pane.Closing.{other_than, get_leaves-close_pane}
use yanta.Pane.Navigation.{
  find_index, get_next_leaf_id, get_previous_leaf_id, get_path_to_leaf, left, right,
  get_pane_in_direction,
}
use yanta.Pane.Reducer.{
  PaneLayoutState, PaneLayoutAction, create_default_pane_layout, split_and_open_document,
  close_pane_at, first_id, pane_layout_reducer,
}
use yanta.Pane.Reducer.Validity.{IsValid}
use yanta.Pane.Reducer.Focus.{FreshIds}
use yanta.Pane.Reducer.Steps.{Reach, start, act, Reach-IsValid}
use yanta.Pane.Reducer.Opening.{after_opening, opened_leaf, split_and_open_lem}

-- What a run computes with.
layout : Unit {0}
unfolding find_pane count_leaves get_leaves get_leaf_paths split_leaf split_pane replace_node
    close_pane_in_node close_pane resize_pane open_document_in_pane update_scroll_position
    move_document_between_panes swap_pane_documents occurs leaf_occurs generate_pane_id pane_id show
    find_index get_next_leaf_id get_previous_leaf_id get_path_to_leaf get_pane_in_direction
    pane_layout_reducer first_id
layout = tt

abbrev pane : String → Option String → PaneLeaf
pane id path = record { id = id; document_path = path; scroll_position = none }

abbrev clock : ℕ → ℕ
clock k = 1700 + k

abbrev two : PaneNode
two =
    split "s" horizontal (leaf (pane "a" (some "x.json"))) (leaf (pane "b" (some "y.json")))
      (50, 50)

abbrev three : PaneNode
three = split "r" horizontal (leaf (pane "c" none)) two (30, 70)

two-Distinct : Distinct two
unfolding occurs
two-Distinct x = ground (
  arith,
  eq_iff "s" x,
  eq_iff "a" x,
  eq_iff "b" x,
  ne_of_str_eq "s" "a" refl,
  ne_of_str_eq "s" "b" refl,
  ne_of_str_eq "a" "b" refl,
)

abbrev state : PaneLayoutState
state = record { root = two; active_pane_id = "a"; primary_document_path = some "x.json" }

state-IsValid : IsValid state
unfolding layout
state-IsValid = record { distinct = two-Distinct; active = omega arith; bounded = omega arith }

start-FreshIds : FreshIds clock 0 create_default_pane_layout.root
unfolding layout
start-FreshIds = record { split_new = refl; leaf_new = refl }

ids-FreshIds : FreshIds clock 0 two
unfolding layout
ids-FreshIds = record { split_new = refl; leaf_new = refl }

first_ids : (generate_pane_id clock 0).0 ≡ "pane-1701-1"
unfolding layout
first_ids = refl

split_ids :
    map (λ l. l.id) (get_leaves (kept two (split_pane clock two "a" vertical 0).0))
    ≡ "a" ∷ "pane-1702-2" ∷ "b" ∷ []
unfolding layout
split_ids = refl

over_the_second : get_pane_in_direction three "b" left ≡ some "c"
unfolding layout
over_the_second = refl

-- A session that splits a pane, shows a document in the new one, and closes the first.
abbrev opening : PaneLayoutAction
opening = split_and_open_document "pane-1" vertical "n.json"

abbrev opened : PaneLayoutState × ℕ
opened = pane_layout_reducer clock create_default_pane_layout opening 0

abbrev closed : PaneLayoutState × ℕ
closed = pane_layout_reducer clock opened.0 (close_pane_at "pane-1") opened.1

session : Reach clock closed.0 closed.1
session = act (act (start {n = 0}) opening start-FreshIds) (close_pane_at "pane-1") tt

Reach-IsValid_example : IsValid closed.0
Reach-IsValid_example = Reach-IsValid session

counts : (occurs "a" two ≡ 1) × (leaf_occurs "a" two ≡ 1) × (count_leaves two ≡ 2)
unfolding layout
counts = (refl, refl, refl)

split_and_open_lem_example :
    ((after_opening clock 0 state "a" vertical "n.json").active_pane_id ≡ leaf_id clock 0)
    × (get_leaves (after_opening clock 0 state "a" vertical "n.json").root
        ≡ insert_after "a" (opened_leaf (leaf_id clock 0) "n.json") (get_leaves two))
split_and_open_lem_example =
    split_and_open_lem clock 0 "a" vertical "n.json" state-IsValid ids-FreshIds counts.1
      (omega (arith, counts.2))

get_leaves-split_pane_example :
    get_leaves (kept two (split_pane clock two "a" vertical 0).0)
    ≡ insert_after "a" (empty_leaf (leaf_id clock 0)) (get_leaves two)
get_leaves-split_pane_example =
    get_leaves-split_pane clock "a" vertical two 0 (omega (arith, counts.0))
      (omega (arith, counts.0, counts.1)) (omega (arith, counts.2))

split_is_no_leaf : leaf_occurs "s" two ≡ 0
unfolding layout
split_is_no_leaf = refl

new_is_new : leaf_occurs (leaf_id clock 0) two ≡ 0
unfolding layout
new_is_new = refl

leaves_once : (x : String) → leaf_occurs x two ≤ 1
leaves_once x = omega (arith, two-Distinct x, leaf_occurs-le-occurs x two)

places :
    (leaf_occurs "b" (leaf (pane "c" none)) ≡ 0)
    × (leaf_occurs "b" (leaf (pane "a" (some "x.json"))) ≡ 0)
    × (0 < leaf_occurs "b" (leaf (pane "b" (some "y.json"))))
unfolding layout
places = (refl, refl, omega arith)

right_of_a : get_pane_in_direction two "a" right ≡ some "b"
unfolding layout
right_of_a = refl

get_leaves-close_pane_example :
    get_leaves (kept two (close_pane two "a")) ≡ filter (other_than "a") (get_leaves two)
get_leaves-close_pane_example =
    get_leaves-close_pane "s" horizontal (leaf (pane "a" (some "x.json")))
      (leaf (pane "b" (some "y.json"))) (50, 50) "a" (omega (arith, counts.1))

finds :
    (find_pane two "a" ≡ some (leaf (pane "a" (some "x.json"))))
    × (find_pane two "b" ≡ some (leaf (pane "b" (some "y.json"))))
unfolding layout
finds = (refl, refl)
