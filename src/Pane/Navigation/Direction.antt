-- ===== src/Pane/Navigation/Direction.antt =====
-- Moving to the pane in a direction.
use yanta.Prelude.{
  ℕ, ◌+◌, ◌≤◌, ◌<◌, ◌≡◌, ◌≢◌, refl, Bool, true, false, Option, none, some, List, [], ◌∷◌, String,
  if◌then◌else◌, get_elem?, last?, find, arith, eq_iff, Option-cases, inl, inr, All, All-map,
  Bool-cases,
}
use mathlib.Core.Path.{subst}
use yanta.Pane.{SplitDirection, horizontal, PaneLeaf, PaneNode, leaf, split, get_leaves}
use yanta.Pane.Occurrences.{leaf_occurs}
use yanta.Pane.Navigation.{
  PathStep, step, path_below, get_path_to_leaf, PaneDirection, left, right, up, down, leads, entry,
  along, id_of, get_pane_in_direction,
}
use yanta.Pane.Navigation.Cycle.{count_id, count_id-get_leaves}

pub path_of_absent :
    (root : PaneNode) (x : String) → leaf_occurs x root ≡ 0 → get_path_to_leaf root x ≡ none
unfolding get_path_to_leaf leaf_occurs
path_of_absent (leaf l) x h = ground arith
path_of_absent (split i d a b s) x h = ground (arith, path_of_absent a x, path_of_absent b x)

pub path_of_present :
    (root : PaneNode) (x : String) → 0 < leaf_occurs x root → get_path_to_leaf root x ≢ none
unfolding get_path_to_leaf leaf_occurs
path_of_present (leaf l) x h = ground arith
path_of_present (split i d a b s) x h = ground (arith, path_of_present a x, path_of_present b x)

-- Three places in a row, by nested horizontal splits, with the pane in the third place only:
-- moving left goes to the last leaf of the first place and passes over the second.
pub left_of_third :
    (i j x : String) (a b c : PaneNode) (s t : ℕ × ℕ)
    → leaf_occurs x a ≡ 0
    → leaf_occurs x b ≡ 0
    → 0 < leaf_occurs x c
    → get_pane_in_direction (split i horizontal a (split j horizontal b c t) s) x left
      ≡ id_of (last? (get_leaves a))
unfolding get_pane_in_direction get_path_to_leaf
left_of_third i j x a b c s t h k m =
    ground (arith, path_of_absent a x, path_of_absent b x, path_of_present c x)

-- A step of a path: the part that it takes holds the pane, and the two parts share no leaf but those
-- that the tree holds as often.
abbrev taken : PathStep → PaneNode
taken s = if s.took_second then s.second else s.first

abbrev beside : PathStep → PaneNode
beside s = if s.took_second then s.first else s.second

IsOnPath : String → PaneNode → PathStep → Type 0
IsOnPath x root s =
    ((y : String) → leaf_occurs y (taken s) + leaf_occurs y (beside s) ≤ leaf_occurs y root)
    × (0 < leaf_occurs x (taken s))

present_of_path :
    (root : PaneNode) (x : String) {p : List PathStep}
    → get_path_to_leaf root x ≡ some p
    → 0 < leaf_occurs x root
present_of_path root x e = ground (arith, path_of_absent root x)

module _ (x : String) (i : String) (d : SplitDirection) (a b : PaneNode) (s : ℕ × ℕ) where
  in_split :
      (r : PaneNode) (steps : List PathStep)
      → ((y : String) → leaf_occurs y r ≤ leaf_occurs y a + leaf_occurs y b)
      → All (IsOnPath x r) steps
      → All (IsOnPath x (split i d a b s)) steps
  unfolding IsOnPath leaf_occurs
  in_split r steps le h =
      All-map (IsOnPath x r) (IsOnPath x (split i d a b s))
        (λ k (q, pos). ((λ y. omega (arith, q y, le y)), pos)) steps h

  below_IsOnPath :
      (o q : Option (List PathStep)) {p : List PathStep}
      → get_path_to_leaf a x ≡ o
      → get_path_to_leaf b x ≡ q
      → ((steps : List PathStep) → o ≡ some steps → All (IsOnPath x a) steps)
      → ((steps : List PathStep) → q ≡ some steps → All (IsOnPath x b) steps)
      → path_below d a b o q ≡ some p
      → All (IsOnPath x (split i d a b s)) p
  unfolding IsOnPath leaf_occurs
  below_IsOnPath (some pa) q {p} ea eb ha hb e =
      let same : step d a b false ∷ pa ≡ p = cc in
      subst (All (IsOnPath x (split i d a b s))) same (
        ((λ y. omega arith), present_of_path a x ea),
        in_split a pa (λ y. omega arith) (ha pa refl),
      )
  below_IsOnPath none (some pb) {p} ea eb ha hb e =
      let same : step d a b true ∷ pb ≡ p = cc in
      subst (All (IsOnPath x (split i d a b s))) same (
        ((λ y. omega arith), present_of_path b x eb),
        in_split b pb (λ y. omega arith) (hb pb refl),
      )
  below_IsOnPath none none ea eb ha hb e = cc

path-IsOnPath :
    (root : PaneNode) (x : String) (p : List PathStep)
    → get_path_to_leaf root x ≡ some p
    → All (IsOnPath x root) p
unfolding get_path_to_leaf
path-IsOnPath (leaf l) x [] e = tt
path-IsOnPath (leaf l) x (k ∷ p) e = absurd (ground arith)
path-IsOnPath (split i d a b s) x p e =
    below_IsOnPath x i d a b s (get_path_to_leaf a x) (get_path_to_leaf b x) refl refl
      (path-IsOnPath a x) (path-IsOnPath b x) e

found_of_All {κ} :
    (P : PathStep → Type κ) (p : PathStep → Bool) (steps : List PathStep) {s : PathStep}
    → All P steps
    → find p steps ≡ some s
    → P s × (p s ≡ true)
found_of_All P p [] h e = cc
found_of_All P p (k ∷ steps) {s} (h, hs) e = elim (Bool-cases (p k)) [
  | inl yes_k ↦ let same : k ≡ s = ground arith in subst (λ m. P m × (p m ≡ true)) same (h, yes_k)
  | inr no_k ↦ found_of_All P p steps hs (rw no_k at e)
]

count_id_of_last : (ls : List PaneLeaf) {y : String} → id_of (last? ls) ≡ some y → 0 < count_id y ls
unfolding count_id
count_id_of_last [] e = cc
count_id_of_last (l ∷ []) {y} e = ground (arith, eq_iff l.id y)
count_id_of_last (l ∷ m ∷ ls) {y} e = omega (arith, count_id_of_last (m ∷ ls) {y = y} e)

count_id_of_first :
    (ls : List PaneLeaf) {y : String} → id_of (get_elem? ls 0) ≡ some y → 0 < count_id y ls
unfolding count_id
count_id_of_first [] e = cc
count_id_of_first (l ∷ ls) {y} e = ground (arith, eq_iff l.id y)

entry-beside :
    (d : PaneDirection) (s : PathStep) (y : String)
    → leads d s ≡ true
    → entry d s ≡ some y
    → 0 < leaf_occurs y (beside s)
entry-beside left s y h e =
    ground (arith, count_id_of_last (get_leaves s.first) {y = y}, count_id-get_leaves y s.first)
entry-beside right s y h e =
    ground (arith, count_id_of_first (get_leaves s.second) {y = y}, count_id-get_leaves y s.second)
entry-beside up s y h e =
    ground (arith, count_id_of_last (get_leaves s.first) {y = y}, count_id-get_leaves y s.first)
entry-beside down s y h e =
    ground (arith, count_id_of_first (get_leaves s.second) {y = y}, count_id-get_leaves y s.second)

along-beside :
    (root : PaneNode) (x : String) (d : PaneDirection) (p : List PathStep) (y : String)
    → All (IsOnPath x root) p
    → along d (some p) ≡ some y
    → (s : PathStep) × IsOnPath x root s × (0 < leaf_occurs y (beside s))
along-beside root x d p y h e = elim (Option-cases (find (leads d) p)) [
  | inl nowhere ↦ absurd (ground arith)
  | inr (s, found) ↦
      let (on_path, turns) = found_of_All (IsOnPath x root) (leads d) p h found in
      (s, on_path, entry-beside d s y turns (ground arith))
]

-- Where leaves do not share ids, a move in a direction leads to a leaf of the layout, another one
-- than the pane that it starts from.
pub get_pane_in_direction_sound :
    (root : PaneNode) (x : String) (d : PaneDirection) {y : String}
    → ((z : String) → leaf_occurs z root ≤ 1)
    → get_pane_in_direction root x d ≡ some y
    → (0 < leaf_occurs y root) × (x ≢ y)
unfolding get_pane_in_direction IsOnPath
get_pane_in_direction_sound root x d {y} distinct e =
    elim (Option-cases (get_path_to_leaf root x)) [
      | inl missing ↦ absurd (ground arith)
      | inr (p, found) ↦
          let (s, (apart, here), there) =
            along-beside root x d p y (path-IsOnPath root x p found) (rw found at e) in
          (
            omega (arith, apart y),
            λ same. absurd (
                omega
                  (arith, apart y, distinct y, subst (λ z. 0 < leaf_occurs z (taken s)) same here)),
          )
    ]
