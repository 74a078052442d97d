-- ===== src/Pane/Storage/Saved.antt =====
-- What is restored has its active pane and fits; what was saved is restored as it was.
use yanta.Prelude.{
  ◌≡◌, refl, sym, ap, ◌∙◌, ◌≤◌, ◌<◌, Bool, true, false, not, ◌&&◌, Bool-cases, inl, inr, Option,
  none, some, String, str_eq, str_eq-ne, eq_iff, eq_refl, List, lookup, lookup-insert, arith,
  if◌then◌else◌,
}
use yanta.Pane.{PaneLeaf, PaneNode, leaf, split, max_panes, find_pane, count_leaves}
use yanta.Pane.Occurrences.{
  occurs, leaf_occurs, leaf_occurs-le-occurs, length-get_leaves, count_leaves-pos,
  leaf_occurs_of_find_pane, find_pane_of_leaf,
}
use yanta.Pane.Reducer.{PaneLayoutState, create_default_pane_layout}
use yanta.Pane.Reducer.Validity.{IsValid}
use yanta.Pane.Reducer.Steps.{default-IsValid}
use yanta.Pane.Storage.{
  StoredNode, validate_node, as_pane_node, is_leaf, fits, tree_fits, validate_layout, as_layout,
  restore_layout, PersistedLayoutEntry, as_stored, save_layout_for_document,
  get_layout_for_document, restore_root, restore_entry, is_nothing,
}

-- The active pane is a leaf of the tree, and the panes are within the limit.
pub record IsUsable (st : PaneLayoutState) : Type 0 where
  pub active : 0 < leaf_occurs st.active_pane_id st.root
  pub bounded : count_leaves st.root ≤ max_panes

default-IsUsable : IsUsable create_default_pane_layout
default-IsUsable = let v = default-IsValid none in record { active = v.active; bounded = v.bounded }

leaf_of_is_leaf : (o : Option PaneNode) → is_leaf o ≡ true → (l : PaneLeaf) × (o ≡ some (leaf l))
leaf_of_is_leaf (some (leaf l)) h = (l, refl)
leaf_of_is_leaf (some (split i d a b s)) h = absurd (ground arith)
leaf_of_is_leaf none h = absurd (ground arith)

and_right : (a b : Bool) → (a && b) ≡ true → b ≡ true
and_right true b h = h
and_right false b h = absurd (ground arith)

fits-IsUsable :
    (root : PaneNode) (active : String)
    → fits root active ≡ true
    → IsUsable (record { root = root; active_pane_id = active; primary_document_path = none })
fits-IsUsable root active h = record {
  active =
      let found = leaf_of_is_leaf (find_pane root active) (ground arith) in
      leaf_occurs_of_find_pane root active found.1;
  bounded = ground (arith, length-get_leaves root);
}

as_layout-IsUsable :
    (o : Option PaneNode) (active : String)
    → tree_fits o active ≡ true
    → IsUsable (as_layout o active)
as_layout-IsUsable none active h = default-IsUsable
as_layout-IsUsable (some root) active h = fits-IsUsable root active h

restore_layout-IsUsable :
    (root : StoredNode) (active : String) → IsUsable (restore_layout root active)
unfolding restore_layout validate_layout
restore_layout-IsUsable root active = elim (Bool-cases (validate_layout root active)) [
  | inl valid ↦ rw valid (
      as_layout-IsUsable (as_pane_node root) active (
        and_right (validate_node root) (tree_fits (as_pane_node root) active) (
          and_right (not (str_eq active ""))
            (validate_node root && tree_fits (as_pane_node root) active) valid)))
  | inr invalid ↦ rw invalid default-IsUsable
]

restore_root-IsUsable :
    (doc_path : String) (root : StoredNode) (active : Option String) (st : PaneLayoutState)
    → restore_root doc_path root active ≡ some st
    → IsUsable st
restore_root-IsUsable doc_path root none st h = absurd (ground arith)
restore_root-IsUsable doc_path root (some active) st h = elim (Bool-cases (is_nothing root)) [
  | inl empty ↦ absurd (ground arith)
  | inr full ↦ rw (sym (same full)) at usable
]
  where
    restored : PaneLayoutState
    restored = record (restore_layout root active) { primary_document_path = some doc_path }

    usable : IsUsable restored
    usable =
        let u = restore_layout-IsUsable root active in
        record { active = u.active; bounded = u.bounded }

    same : is_nothing root ≡ false → st ≡ restored
    same full = cc (h, full)

restore_entry-IsUsable :
    (doc_path : String) (o : Option PersistedLayoutEntry) (st : PaneLayoutState)
    → restore_entry doc_path o ≡ some st
    → IsUsable st
restore_entry-IsUsable doc_path none st h = absurd (ground arith)
restore_entry-IsUsable doc_path (some entry) st h =
    restore_root-IsUsable doc_path entry.root entry.active_pane_id st h

-- Whatever the storage holds for a document, a layout that comes from it has at most four panes, and
-- its active pane is one of them.
pub get_layout_for_document-IsUsable :
    (doc_path : String) (layouts : List (String × PersistedLayoutEntry)) (st : PaneLayoutState)
    → get_layout_for_document doc_path layouts ≡ some st
    → IsUsable st
unfolding get_layout_for_document
get_layout_for_document-IsUsable doc_path layouts st h =
    restore_entry-IsUsable doc_path (lookup doc_path layouts) st h

as_pane_node-as_stored : (n : PaneNode) → as_pane_node (as_stored n) ≡ some n
unfolding as_pane_node as_stored
as_pane_node-as_stored (leaf l) = ground (arith, eq_refl "leaf")
as_pane_node-as_stored (split i d a b s) =
    rw (as_pane_node-as_stored a, as_pane_node-as_stored b) refl

validate_node-as_stored : (n : PaneNode) → occurs "" n ≡ 0 → validate_node (as_stored n) ≡ true
unfolding validate_node as_stored occurs
validate_node-as_stored (leaf l) h = ground (arith, eq_iff l.id "")
validate_node-as_stored (split i d a b s) h =
    ground (arith, validate_node-as_stored a, validate_node-as_stored b)

no_empty_id :
    (root : PaneNode) (active : String)
    → occurs "" root ≡ 0
    → 0 < leaf_occurs active root
    → str_eq active "" ≡ false
no_empty_id root active h k = str_eq-ne active "" (λ e. nonzero e)
  where
    nonzero : active ≡ "" → ⊥
    nonzero e = omega (arith, leaf_occurs-le-occurs "" root, ap (λ x. leaf_occurs x root) e)

IsValid-fits : (st : PaneLayoutState) → IsValid st → fits st.root st.active_pane_id ≡ true
IsValid-fits st v =
    let found =
      find_pane_of_leaf st.root st.active_pane_id (v.distinct st.active_pane_id) v.active in
    rw (found.1, length-get_leaves st.root) (ground (arith, count_leaves-pos st.root, v.bounded))

restore_layout-as_stored :
    (st : PaneLayoutState)
    → IsValid st
    → occurs "" st.root ≡ 0
    → restore_layout (as_stored st.root) st.active_pane_id
      ≡ record { root = st.root; active_pane_id = st.active_pane_id; primary_document_path = none }
unfolding restore_layout validate_layout
restore_layout-as_stored st v h =
    rw
      (
        no_empty_id st.root st.active_pane_id h v.active,
        validate_node-as_stored st.root h,
        as_pane_node-as_stored st.root,
        IsValid-fits st v,
      )
      refl

is_nothing-as_stored : (n : PaneNode) → is_nothing (as_stored n) ≡ false
unfolding as_stored
is_nothing-as_stored (leaf l) = refl
is_nothing-as_stored (split i d a b s) = refl

restore_root-as_stored :
    (doc_path : String) (st : PaneLayoutState)
    → IsValid st
    → occurs "" st.root ≡ 0
    → restore_root doc_path (as_stored st.root) (some st.active_pane_id)
      ≡ some (record st { primary_document_path = some doc_path })
restore_root-as_stored doc_path st v h =
    rw (is_nothing-as_stored st.root, restore_layout-as_stored st v h) refl

-- A valid layout whose ids are not empty, saved for a document, is the one that the document gets
-- back, with the document as its primary one, and other documents get what they got before.
pub get-save_layout_for_document :
    (doc_path other : String) (st : PaneLayoutState)
    (layouts : List (String × PersistedLayoutEntry))
    → IsValid st
    → occurs "" st.root ≡ 0
    → get_layout_for_document other (save_layout_for_document doc_path st layouts) ≡ (
        if str_eq doc_path other
        then some (record st { primary_document_path = some doc_path })
        else get_layout_for_document other layouts)
unfolding get_layout_for_document save_layout_for_document
get-save_layout_for_document doc_path other st layouts v h =
    ap (restore_entry other) (lookup-insert doc_path other entry layouts)
    ∙ elim (Bool-cases (str_eq doc_path other)) [
      | inl same ↦ rw same (
          restore_root-as_stored other st v h
          ∙ ap (λ p. some (record st { primary_document_path = some p }))
              (sym ((eq_iff doc_path other).0 same)))
      | inr different ↦ rw different refl
    ]
  where
    entry : PersistedLayoutEntry
    entry = record { root = as_stored st.root; active_pane_id = some st.active_pane_id }
