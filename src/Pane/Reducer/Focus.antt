-- ===== src/Pane/Reducer/Focus.antt =====
-- The state after a split: the invariant, and which pane is active.
use yanta.Prelude.{
  ◌⊎◌, ℕ, ◌≤◌, ◌<◌, ◌≡◌, sym, ap, Option, none, some, String, eq_iff, eq_refl, arith, inl, inr,
}
use mathlib.Core.Path.{subst}
use native.Mathlib.Decide.{ℕ_discrete, dec_lt}
use yanta.Pane.{
  SplitDirection, PaneNode, kept, count_leaves, max_panes, split_pane, open_document_in_pane,
}
use yanta.Pane.Occurrences.{occurs, leaf_occurs, leaf_occurs-le-occurs}
use yanta.Pane.Splitting.{
  bind_leaves, beside, split_id, leaf_id, occurs-bind_leaves, leaf_occurs-bind_leaves,
  count_leaves-bind_leaves,
}
use yanta.Pane.Splitting.Outcome.{split_pane-changed, split_pane-unchanged, new_pane-bind_leaves}
use yanta.Pane.Ids.Unique.{split_id-ne-leaf_id}
use yanta.Pane.Reducer.{PaneLayoutState, after_split, after_split_and_open, new_pane, pane_id_or}
use yanta.Pane.Reducer.Validity.{IsValid, SameIds, open_document-SameIds}

-- The ids that the next split draws are not in the tree.
pub record FreshIds (clock : ℕ → ℕ) (n : ℕ) (root : PaneNode) : Type 0 where
  pub split_new : occurs (split_id clock n) root ≡ 0
  pub leaf_new : occurs (leaf_id clock n) root ≡ 0

module _ (clock : ℕ → ℕ) (n : ℕ) {st : PaneLayoutState} (x : String) (d : SplitDirection)
    (v : IsValid st) (fresh : FreshIds clock n st.root) where
  abbrev pub grown : PaneNode
  grown = bind_leaves (beside x d (split_id clock n) (leaf_id clock n)) st.root

  pub grown-distinct : (y : String) → leaf_occurs x st.root ≡ 1 → occurs y grown ≤ 1
  grown-distinct y one = ground (
    arith,
    occurs-bind_leaves x d (split_id clock n) (leaf_id clock n) st.root y,
    v.distinct y,
    fresh.split_new,
    fresh.leaf_new,
    eq_iff (split_id clock n) y,
    eq_iff (leaf_id clock n) y,
    split_id-ne-leaf_id clock n,
  )

  pub grown-leaf : leaf_occurs x st.root ≡ 1 → 0 < leaf_occurs (leaf_id clock n) grown
  grown-leaf one = ground (
    arith,
    leaf_occurs-bind_leaves x d (split_id clock n) (leaf_id clock n) st.root (leaf_id clock n),
    eq_refl (leaf_id clock n),
  )

  grown-bounded :
      leaf_occurs x st.root ≡ 1 → count_leaves st.root < max_panes → count_leaves grown ≤ max_panes
  grown-bounded one below =
      omega (arith, count_leaves-bind_leaves x d (split_id clock n) (leaf_id clock n) st.root)

  -- `splitPane` on a valid layout either gives the tree back or splits the leaf.
  pub Outcome : Option PaneNode → Type 0
  Outcome o =
      (o ≡ none)
      ⊎ ((o ≡ some grown) × (leaf_occurs x st.root ≡ 1) × (count_leaves st.root < max_panes))

  pub outcome : Outcome (split_pane clock st.root x d n).0
  unfolding Outcome
  outcome = elim (ℕ_discrete (leaf_occurs x st.root) 0) [
    | yes none_there ↦
        inl (ap (λ r. r.0) (split_pane-unchanged clock x d st.root n (inl none_there)))
    | no there ↦ elim (dec_lt (count_leaves st.root) max_panes) [
      | yes below ↦
          let one : leaf_occurs x st.root ≡ 1 =
            omega (arith, leaf_occurs-le-occurs x st.root, v.distinct x) in
          inr (split_pane-changed clock x d st.root n (v.distinct x) one below, one, below)
      | no full ↦ inl (ap (λ r. r.0) (split_pane-unchanged clock x d st.root n (inr (omega arith))))
    ]
  ]

  pub new_pane-grown :
      leaf_occurs x st.root ≡ 1
      → (y : String) → pane_id_or (new_pane st.root grown) y ≡ leaf_id clock n
  new_pane-grown one y =
      ap (λ o. pane_id_or o y)
        (new_pane-bind_leaves x d (split_id clock n) (leaf_id clock n) st.root one
          (omega (arith, fresh.leaf_new, leaf_occurs-le-occurs (leaf_id clock n) st.root)))

  pub after_split-IsValid : (o : Option PaneNode) → Outcome o → IsValid (after_split st o)
  unfolding Outcome
  after_split-IsValid o (inl same) = rw same v
  after_split-IsValid o (inr (new, one, below)) = rw new (record {
    distinct = λ y. grown-distinct y one;
    active = rw (new_pane-grown one st.active_pane_id) (grown-leaf one);
    bounded = grown-bounded one below;
  })

  pub after_split_and_open-IsValid :
      (path : String) (o : Option PaneNode) → Outcome o → IsValid (after_split_and_open st x path o)
  unfolding Outcome
  after_split_and_open-IsValid path o (inl same) = rw same v
  after_split_and_open-IsValid path o (inr (new, one, below)) = rw new (
      subst (λ j. IsValid (opened j)) (sym (new_pane-grown one x))
        (record {
          distinct = λ y. omega (arith, same.all_ids y, grown-distinct y one);
          active = omega (arith, same.leaf_ids (leaf_id clock n), grown-leaf one);
          bounded = omega (arith, same.leaves, grown-bounded one below);
        }))
    where
      opened : String → PaneLayoutState
      opened j = record st {
        root = kept grown (open_document_in_pane grown j (some path));
        active_pane_id = j;
      }

      same : SameIds grown (kept grown (open_document_in_pane grown (leaf_id clock n) (some path)))
      same = open_document-SameIds grown (leaf_id clock n) (some path)
