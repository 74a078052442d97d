-- ===== src/Pane/Navigation/Cycle.antt =====
-- Next and previous pane, in reading order with wrap-around.
use yanta.Prelude.{
  ℕ, zero, suc, ◌+◌, ◌-◌, ◌%◌, ◌≤◌, ◌<◌, ◌≡◌, refl, ap, ◌∙◌, Bool, some, List, [], ◌∷◌, ◌++◌,
  String, str_eq, length, get_elem?, arith, eq_refl, eq_iff, str_eq-cases, inl, inr,
}
use mathlib.Core.Option
use yanta.Pane.{PaneLeaf, PaneNode, leaf, split, get_leaves, count_leaves}
use yanta.Pane.Occurrences.{bit, leaf_occurs, length-get_leaves}
use yanta.Pane.Navigation.{find_index, id_at, get_next_leaf_id, get_previous_leaf_id}

unfoldable pub count_id : String → List PaneLeaf → ℕ
count_id x [] = 0
count_id x (l ∷ ls) = bit (str_eq l.id x) + count_id x ls

count_id-append :
    (x : String) (ls ms : List PaneLeaf) → count_id x (ls ++ ms) ≡ count_id x ls + count_id x ms
unfolding count_id
count_id-append x [] ms = omega arith
count_id-append x (l ∷ ls) ms = omega (arith, count_id-append x ls ms)

pub count_id-get_leaves :
    (x : String) (root : PaneNode) → count_id x (get_leaves root) ≡ leaf_occurs x root
unfolding count_id get_leaves leaf_occurs
count_id-get_leaves x (leaf l) = omega arith
count_id-get_leaves x (split i d a b s) = omega (
  arith,
  count_id-append x (get_leaves a) (get_leaves b),
  count_id-get_leaves x a,
  count_id-get_leaves x b,
)

abbrev pub with_id : String → PaneLeaf → Bool
with_id x l = str_eq l.id x

-- An id that is there has an index, at which a leaf with the id stands.
find_index_of_present :
    (x : String) (ls : List PaneLeaf)
    → 0 < count_id x ls
    → (i : ℕ) × (l : PaneLeaf) × (find_index (with_id x) ls ≡ some i)
      × (get_elem? ls i ≡ some l)
      × (l.id ≡ x)
      × (i < length ls)
unfolding count_id find_index
find_index_of_present x [] h = absurd (omega arith)
find_index_of_present x (l ∷ ls) h = elim (str_eq-cases l.id x) [
  | inl e ↦ (0, l, ground (arith, eq_iff l.id x), refl, e, omega arith)
  | inr ne ↦
      let (i, m, f, g, e, lt) = find_index_of_present x ls (ground (arith, eq_iff l.id x)) in
      (suc i, m, ground (arith, eq_iff l.id x), g, e, omega arith)
]

count_id-pos :
    (ls : List PaneLeaf) (i : ℕ) {l : PaneLeaf} → get_elem? ls i ≡ some l → 0 < count_id l.id ls
unfolding count_id
count_id-pos [] i h = cc
count_id-pos (l ∷ ls) zero {l = m} h = ground (arith, eq_refl l.id)
count_id-pos (l ∷ ls) (suc i) {l = m} h = omega (arith, count_id-pos ls i h)

-- Where ids are not shared, the index of an id is where its leaf stands.
find_index-get_elem? :
    (ls : List PaneLeaf) (i : ℕ) {l : PaneLeaf}
    → get_elem? ls i ≡ some l
    → count_id l.id ls ≤ 1
    → find_index (with_id l.id) ls ≡ some i
unfolding count_id find_index
find_index-get_elem? [] i h k = cc
find_index-get_elem? (l ∷ ls) zero {l = m} h k = ground (arith, eq_refl l.id)
find_index-get_elem? (l ∷ ls) (suc i) {l = m} h k =
    ground (arith, find_index-get_elem? ls i {l = m}, count_id-pos ls i {l = m})

pub get_elem?-some :
    (ls : List PaneLeaf) (i : ℕ) → i < length ls → (l : PaneLeaf) × (get_elem? ls i ≡ some l)
get_elem?-some [] i h = absurd (omega arith)
get_elem?-some (l ∷ ls) zero h = (l, refl)
get_elem?-some (l ∷ ls) (suc i) h = get_elem?-some ls i (omega arith)

wrap : (i n : ℕ) → i < n → ((i + 1) % n + n - 1) % n ≡ i
wrap i n h = grind arith

wrap_back : (i n : ℕ) → i < n → ((i + n - 1) % n + 1) % n ≡ i
wrap_back i n h = grind arith

module _ (root : PaneNode) (distinct : (x : String) → leaf_occurs x root ≤ 1)
    (many : 2 ≤ count_leaves root) where
  abbrev leaves : List PaneLeaf
  leaves = get_leaves root

  -- Where the two functions go from the leaf at an index.
  next_of_index :
      (i : ℕ) (x : String)
      → find_index (with_id x) leaves ≡ some i
      → get_next_leaf_id root x ≡ id_at leaves ((i + 1) % length leaves)
  unfolding get_next_leaf_id
  next_of_index i x e = rw e (ground (arith, length-get_leaves root))

  previous_of_index :
      (i : ℕ) (x : String)
      → find_index (with_id x) leaves ≡ some i
      → get_previous_leaf_id root x ≡ id_at leaves ((i + length leaves - 1) % length leaves)
  unfolding get_previous_leaf_id
  previous_of_index i x e = rw e (ground (arith, length-get_leaves root))

  index_of_leaf :
      (i : ℕ) {l : PaneLeaf}
      → get_elem? leaves i ≡ some l
      → find_index (with_id l.id) leaves ≡ some i
  index_of_leaf i {l} e =
      find_index-get_elem? leaves i e (omega (arith, count_id-get_leaves l.id root, distinct l.id))

  -- From a pane of a layout with several, where leaves do not share ids, the next pane exists, and
  -- going back from it returns.
  pub get_previous_leaf_id-get_next_leaf_id :
      (x : String)
      → 0 < leaf_occurs x root
      → (y : String) × (get_next_leaf_id root x ≡ some y) × (get_previous_leaf_id root y ≡ some x)
  get_previous_leaf_id-get_next_leaf_id x h =
      let (i, l, f, g, e, lt) =
        find_index_of_present x leaves (omega (arith, count_id-get_leaves x root)) in
      let (m, at_next) = get_elem?-some leaves ((i + 1) % length leaves) (omega arith) in
      (
        m.id,
        next_of_index i x f ∙ ap (Option.map (λ k. k.id)) at_next,
        previous_of_index ((i + 1) % length leaves) m.id (index_of_leaf _ at_next)
            ∙ ap (id_at leaves) (wrap i (length leaves) lt)
            ∙ ap (Option.map (λ k. k.id)) g
            ∙ ap some e,
      )

  -- The other way round.
  pub get_next_leaf_id-get_previous_leaf_id :
      (x : String)
      → 0 < leaf_occurs x root
      → (y : String) × (get_previous_leaf_id root x ≡ some y) × (get_next_leaf_id root y ≡ some x)
  get_next_leaf_id-get_previous_leaf_id x h =
      let (i, l, f, g, e, lt) =
        find_index_of_present x leaves (omega (arith, count_id-get_leaves x root)) in
      let (m, before) =
        get_elem?-some leaves ((i + length leaves - 1) % length leaves) (omega arith) in
      (
        m.id,
        previous_of_index i x f ∙ ap (Option.map (λ k. k.id)) before,
        next_of_index ((i + length leaves - 1) % length leaves) m.id (index_of_leaf _ before)
            ∙ ap (id_at leaves) (wrap_back i (length leaves) lt)
            ∙ ap (Option.map (λ k. k.id)) g
            ∙ ap some e,
      )
