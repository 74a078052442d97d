-- ===== src/Pane/Documents.antt =====
-- Which document each pane shows after `openDocumentInPane`, `moveDocumentBetweenPanes` and
-- `swapPaneDocuments` (frontend/src/pane/utils/paneTreeMutations.ts).
use yanta.Prelude.{
  ℕ, ◌≤◌, ◌≡◌, refl, ap, ◌∙◌, true, Option, none, some, map, String, str_eq, eq_iff, arith,
  if◌then◌else◌, inl, inr, Bool-cases, Option-cases,
}
use mathlib.Core.List.{map-append}
use mathlib.Core.Path.{ap₂}
use mathlib.Core.Option
use yanta.Pane.{
  PaneLeaf, PaneNode, leaf, split, kept, replace_node, find_pane, get_leaves, set_document,
  open_document_in_pane, move_document_between_panes, swap_pane_documents, then_edit,
}
use yanta.Pane.Occurrences.{
  occurs, leaf_occurs, Distinct, leaf_occurs-le-occurs, leaf_occurs_of_find_pane,
  find_pane-eq-none_iff, node_id-find_pane,
}
use yanta.Pane.Edits.{kept-rebuild, occurs-edit_node, leaf_occurs-edit_node, set_document-KeepsIds}

pub map_leaves : (PaneLeaf → PaneLeaf) → PaneNode → PaneNode
map_leaves g (leaf l) = leaf (g l)
map_leaves g (split i d a b s) = split i d (map_leaves g a) (map_leaves g b) s

abbrev pub at : String → (PaneLeaf → PaneLeaf) → PaneLeaf → PaneLeaf
at x g l = if str_eq l.id x then g l else l

abbrev pub show_document : Option String → PaneLeaf → PaneLeaf
show_document path l = record l { document_path = path }

-- No split has the id.
abbrev pub OnlyLeaves : String → PaneNode → Type 0
OnlyLeaves x root = occurs x root ≤ leaf_occurs x root

pub get_leaves-map_leaves :
    (g : PaneLeaf → PaneLeaf) (root : PaneNode)
    → get_leaves (map_leaves g root) ≡ map g (get_leaves root)
unfolding get_leaves map_leaves
get_leaves-map_leaves g (leaf l) = refl
get_leaves-map_leaves g (split i d a b s) =
    simp (get_leaves-map_leaves g a, get_leaves-map_leaves g b, map-append)

module _ (f : PaneNode → Option PaneNode) (g : PaneLeaf → PaneLeaf)
    (on_leaf : (l : PaneLeaf) → f (leaf l) ≡ some (leaf (g l))) where
  pub edit_node-map_leaves :
      (root : PaneNode) (x : String) (n : ℕ)
      → OnlyLeaves x root
      → kept root (replace_node root x (λ m k. (f m, k)) n).0 ≡ map_leaves (at x g) root
  unfolding replace_node map_leaves occurs leaf_occurs
  edit_node-map_leaves (leaf l) x n h = ground (arith, on_leaf l)
  edit_node-map_leaves (split i d a b s) x n h = elim (Bool-cases (str_eq i x)) [
    | inl here ↦ absurd (ground (arith, leaf_occurs-le-occurs x a, leaf_occurs-le-occurs x b))
    | inr below ↦
        let first = edit_node-map_leaves a x n (ground (arith, leaf_occurs-le-occurs x b)) in
        let second =
          edit_node-map_leaves b x (replace_node a x (λ m k. (f m, k)) n).1
            (ground (arith, leaf_occurs-le-occurs x a)) in
        rw (below, kept-rebuild) (ap₂ (λ a' b'. split i d a' b' s) first second)
  ]

-- For an id that is no split's, opening a document in a pane changes what that pane shows, and
-- nothing else of the tree.
pub open_document_in_pane-map_leaves :
    (root : PaneNode) (x : String) (path : Option String)
    → OnlyLeaves x root
    → kept root (open_document_in_pane root x path) ≡ map_leaves (at x (show_document path)) root
unfolding open_document_in_pane
open_document_in_pane-map_leaves root x path h =
    edit_node-map_leaves (set_document path) (show_document path) (λ l. refl) root x 0 h

pub map_leaves-map_leaves :
    (g h : PaneLeaf → PaneLeaf) (root : PaneNode)
    → map_leaves g (map_leaves h root) ≡ map_leaves (λ l. g (h l)) root
unfolding map_leaves
map_leaves-map_leaves g h (leaf l) = refl
map_leaves-map_leaves g h (split i d a b s) =
    rw (map_leaves-map_leaves g h a, map_leaves-map_leaves g h b)

-- Two edits in a row, without the references.
kept-then_edit :
    (root : PaneNode) (o : Option PaneNode) (f : PaneNode → Option PaneNode)
    → kept root (then_edit root o f) ≡ kept (kept root o) (f (kept root o))
kept-then_edit root none f = refl
kept-then_edit root (some r) f = refl

OnlyLeaves-open :
    (root : PaneNode) (x y : String) (path : Option String)
    → OnlyLeaves y root
    → OnlyLeaves y (kept root (open_document_in_pane root x path))
unfolding open_document_in_pane
OnlyLeaves-open root x y path h = omega (
  arith,
  occurs-edit_node (set_document-KeepsIds path) root x y,
  leaf_occurs-edit_node (set_document-KeepsIds path) root x y,
)

-- One document set after another.
pub set_both : String → Option String → String → Option String → PaneLeaf → PaneLeaf
set_both x p y q l = at y (show_document q) (at x (show_document p) l)

set_both-map_leaves :
    (root : PaneNode) (x y : String) (p q : Option String)
    → OnlyLeaves x root
    → OnlyLeaves y root
    → kept root (then_edit root (open_document_in_pane root x p) (λ r. open_document_in_pane r y q))
      ≡ map_leaves (set_both x p y q) root
unfolding set_both
set_both-map_leaves root x y p q h k =
    kept-then_edit root (open_document_in_pane root x p) (λ r. open_document_in_pane r y q)
    ∙ open_document_in_pane-map_leaves _ y q (OnlyLeaves-open root x y p k)
    ∙ ap (map_leaves (at y (show_document q))) (open_document_in_pane-map_leaves root x p h)
    ∙ map_leaves-map_leaves _ _ root

pub OnlyLeaves-of_found :
    (root : PaneNode) (x : String) {l : PaneLeaf}
    → Distinct root
    → find_pane root x ≡ some (leaf l)
    → OnlyLeaves x root
OnlyLeaves-of_found root x h e = omega (arith, h x, leaf_occurs_of_find_pane root x e)

-- Where leaves do not share ids with other nodes and the source is a leaf, moving its document
-- shows it in the target, leaves the source empty, and keeps the rest; the target is no split's
-- id. With no pane of the target's id the document is dropped from the layout.
pub move_document_between_panes-map_leaves :
    (root : PaneNode) (source target : String) {l : PaneLeaf}
    → Distinct root
    → find_pane root source ≡ some (leaf l)
    → OnlyLeaves target root
    → kept root (move_document_between_panes root source target)
      ≡ map_leaves (set_both source none target l.document_path) root
unfolding move_document_between_panes
move_document_between_panes-map_leaves root source target {l} h e k = rw e (
    set_both-map_leaves root source target none l.document_path
      (OnlyLeaves-of_found root source h e) k)

pub swap_pane_documents-map_leaves :
    (root : PaneNode) (x y : String) {l m : PaneLeaf}
    → Distinct root
    → find_pane root x ≡ some (leaf l)
    → find_pane root y ≡ some (leaf m)
    → kept root (swap_pane_documents root x y)
      ≡ map_leaves (set_both x m.document_path y l.document_path) root
unfolding swap_pane_documents
swap_pane_documents-map_leaves root x y {l} {m} h e e' =
    rw (e, e')
      (set_both-map_leaves root x y m.document_path l.document_path (OnlyLeaves-of_found root x h e)
        (OnlyLeaves-of_found root y h e'))

module _ (g : PaneLeaf → PaneLeaf) (same_id : (l : PaneLeaf) → (g l).id ≡ l.id) where
  pub occurs-map_leaves :
      (root : PaneNode) (x : String) → occurs x (map_leaves g root) ≡ occurs x root
  unfolding occurs map_leaves
  occurs-map_leaves (leaf l) x = rw (same_id l)
  occurs-map_leaves (split i d a b s) x = rw (occurs-map_leaves a x, occurs-map_leaves b x)

  pub find_pane-map_leaves :
      (root : PaneNode) (x : String)
      → find_pane (map_leaves g root) x ≡ Option.map (map_leaves g) (find_pane root x)
  unfolding find_pane map_leaves
  find_pane-map_leaves (leaf l) x = ground (arith, same_id l)
  find_pane-map_leaves (split i d a b s) x =
      ground (arith, find_pane-map_leaves a x, find_pane-map_leaves b x)

set_both-id : (x y : String) (p q : Option String) (l : PaneLeaf) → (set_both x p y q l).id ≡ l.id
unfolding set_both
set_both-id x y p q l = ground arith

-- Every leaf with the id is the leaf that the lookup finds.
EachLeaf : (PaneLeaf → Type 0) → PaneNode → Type 0
EachLeaf P (leaf l) = P l
EachLeaf P (split _ _ a b _) = EachLeaf P a × EachLeaf P b

vacuous :
    (root : PaneNode) (x : String) (l : PaneLeaf)
    → occurs x root ≡ 0
    → EachLeaf (λ m. str_eq m.id x ≡ true → m ≡ l) root
unfolding occurs EachLeaf
vacuous (leaf m) x l h = λ e. absurd (ground arith)
vacuous (split i d a b s) x l h = (vacuous a x l (omega arith), vacuous b x l (omega arith))

found_unique :
    (root : PaneNode) (x : String) (l : PaneLeaf)
    → occurs x root ≤ 1
    → find_pane root x ≡ some (leaf l)
    → EachLeaf (λ m. str_eq m.id x ≡ true → m ≡ l) root
unfolding occurs find_pane EachLeaf
found_unique (leaf m) x l h e = λ q. ground arith
found_unique (split i d a b s) x l h e = elim (Option-cases (find_pane a x)) [
  | inl missing ↦ (
    vacuous a x l ((find_pane-eq-none_iff a x).0 missing),
    found_unique b x l (omega arith) (ground arith),
  )
  | inr (n, found) ↦
      let here : find_pane a x ≡ some (leaf l) = ground arith in
      (
        found_unique a x l (omega arith) here,
        vacuous b x l (omega (arith, leaf_occurs_of_find_pane a x here, leaf_occurs-le-occurs x a)),
      )
]

map_leaves-fixed :
    (g : PaneLeaf → PaneLeaf) (root : PaneNode)
    → EachLeaf (λ l. g l ≡ l) root
    → map_leaves g root ≡ root
unfolding map_leaves EachLeaf
map_leaves-fixed g (leaf l) h = ap leaf h
map_leaves-fixed g (split i d a b s) (h, k) = rw (map_leaves-fixed g a h, map_leaves-fixed g b k)

scroll-set_both :
    (x y : String) (p q : Option String) (l : PaneLeaf)
    → (set_both x p y q l).scroll_position ≡ l.scroll_position
unfolding set_both
scroll-set_both x y p q l = ground arith

path-set_both :
    (x y : String) (p q : Option String) (l : PaneLeaf)
    → (set_both x p y q l).document_path
      ≡ (if str_eq l.id y then q else if str_eq l.id x then p else l.document_path)
unfolding set_both
path-set_both x y p q l = ground arith

leaf_ext :
    (k l : PaneLeaf)
    → k.id ≡ l.id
    → k.document_path ≡ l.document_path
    → k.scroll_position ≡ l.scroll_position
    → k ≡ l
leaf_ext k l a b c = λ i. record { id = a i; document_path = b i; scroll_position = c i }

module _ (x y : String) (l m : PaneLeaf) where
  abbrev exchange : PaneLeaf → PaneLeaf
  exchange = set_both x m.document_path y l.document_path

  abbrev exchange_back : PaneLeaf → PaneLeaf
  exchange_back = set_both x (exchange m).document_path y (exchange l).document_path

  exchange_twice :
      (k : PaneLeaf)
      → l.id ≡ x
      → m.id ≡ y
      → (str_eq k.id x ≡ true → k ≡ l)
      → (str_eq k.id y ≡ true → k ≡ m)
      → exchange_back (exchange k) ≡ k
  exchange_twice k a b h h' =
      leaf_ext _ k (set_both-id x y _ _ _ ∙ set_both-id x y _ _ k)
        (path-set_both x y _ _ (exchange k)
          ∙ simp (set_both-id, path-set_both)
              (ground (
                arith,
                eq_iff k.id x,
                eq_iff k.id y,
                eq_iff l.id y,
                eq_iff l.id x,
                eq_iff m.id x,
                eq_iff m.id y,
              )))
        (scroll-set_both x y _ _ _ ∙ scroll-set_both x y _ _ k)

  exchange_twice-EachLeaf :
      (root : PaneNode)
      → l.id ≡ x
      → m.id ≡ y
      → EachLeaf (λ k. str_eq k.id x ≡ true → k ≡ l) root
      → EachLeaf (λ k. str_eq k.id y ≡ true → k ≡ m) root
      → EachLeaf (λ k. exchange_back (exchange k) ≡ k) root
  unfolding EachLeaf
  exchange_twice-EachLeaf (leaf k) a b h h' = exchange_twice k a b h h'
  exchange_twice-EachLeaf (split i d r t s) a b (h, k) (h', k') =
      (exchange_twice-EachLeaf r a b h h', exchange_twice-EachLeaf t a b k k')

abbrev pub swapped : PaneNode → String → String → PaneNode
swapped root x y = kept root (swap_pane_documents root x y)

-- Where ids are not shared, swapping the documents of two leaves twice gives back the tree.
pub swap_pane_documents_involutive :
    (root : PaneNode) (x y : String) {l m : PaneLeaf}
    → Distinct root
    → find_pane root x ≡ some (leaf l)
    → find_pane root y ≡ some (leaf m)
    → swapped (swapped root x y) x y ≡ root
unfolding map_leaves
swap_pane_documents_involutive root x y {l} {m} h e e' =
    rw (swap_pane_documents-map_leaves root x y h e e') (
      swap_pane_documents-map_leaves (map_leaves g root) x y distinct_after
        (find_pane-map_leaves g same root x ∙ ap (Option.map (map_leaves g)) e)
        (find_pane-map_leaves g same root y ∙ ap (Option.map (map_leaves g)) e')
      ∙ map_leaves-map_leaves _ g root
      ∙ map_leaves-fixed _ root (
          exchange_twice-EachLeaf x y l m root (node_id-find_pane root x e)
            (node_id-find_pane root y e') (found_unique root x l (h x) e)
            (found_unique root y m (h y) e')))
  where
    g : PaneLeaf → PaneLeaf
    g = exchange x y l m

    same : (k : PaneLeaf) → (g k).id ≡ k.id
    same = set_both-id x y m.document_path l.document_path

    distinct_after : Distinct (map_leaves g root)
    distinct_after z = rw (occurs-map_leaves g same root z) (h z)
