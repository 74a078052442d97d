-- ===== src/Recents/Actions.antt =====
-- What adding a document does to the list, and what the comparison that guards the refresh decides.
use yanta.Prelude.{
  ℕ, zero, suc, ◌≤◌, ◌≡◌, refl, true, not, none, some, List, [], ◌∷◌, String, take, filter, length,
  arith, eq_iff, Option-cases, inl, inr, ◌↔◌,
}
use yanta.Recents.{
  RecentDocument, max_recent_documents, same_path, find_path, without, add_recent_document,
  remove_recent_document, same_document, same_elements, are_recent_documents_equal,
}
use yanta.Recents.Invariant.{count_path, IsValid}

filter-none :
    (x : String) (ds : List RecentDocument)
    → count_path x ds ≡ 0
    → filter (λ d. not (same_path x d)) ds ≡ ds
unfolding count_path
filter-none x [] h = refl
filter-none x (d ∷ ds) h = ground (arith, filter-none x ds)

find_path-count :
    (x : String) (ds : List RecentDocument) → find_path x ds ≡ none → count_path x ds ≡ 0
unfolding find_path count_path
find_path-count x [] h = refl
find_path-count x (d ∷ ds) h = ground (arith, find_path-count x ds)

without-filter :
    (x : String) (ds : List RecentDocument) (i : ℕ)
    → count_path x ds ≤ 1
    → find_path x ds ≡ some i
    → without i ds ≡ filter (λ d. not (same_path x d)) ds
unfolding count_path find_path without
without-filter x [] i few h = cc
without-filter x (d ∷ ds) zero few h = ground (arith, filter-none x ds)
without-filter x (d ∷ ds) (suc i) few h = ground (arith, without-filter x ds i)

-- On a list of at most ten documents with no repeated path, adding a document is removing the
-- documents of its path, putting it first, and keeping the first ten.
pub add_recent_document-remove :
    (d : RecentDocument) (docs : List RecentDocument)
    → IsValid docs
    → add_recent_document d docs
      ≡ take max_recent_documents (d ∷ remove_recent_document d.path docs)
unfolding add_recent_document remove_recent_document
add_recent_document-remove d docs v = elim (Option-cases (find_path d.path docs)) [
  | inl new ↦ rw (new, filter-none d.path docs (find_path-count d.path docs new)) refl
  | inr (i, old) ↦ rw (old, without-filter d.path docs i (v.once d.path) old) refl
]

same_document-eq : (a b : RecentDocument) → (same_document a b ≡ true) ↔ (a ≡ b)
same_document-eq a b =
    ground
      (arith, eq_iff a.path b.path, eq_iff a.title b.title, eq_iff a.project_alias b.project_alias)

same_elements-eq :
    (as_ bs : List RecentDocument)
    → length as_ ≡ length bs
    → (same_elements as_ bs ≡ true) ↔ (as_ ≡ bs)
unfolding same_elements
same_elements-eq [] [] h = ground arith
same_elements-eq [] (b ∷ bs) h = ground arith
same_elements-eq (a ∷ as_) [] h = ground arith
same_elements-eq (a ∷ as_) (b ∷ bs) h =
    ground (arith, same_document-eq a b, same_elements-eq as_ bs)

-- The comparison that guards the refresh holds exactly of equal lists.
pub are_recent_documents_equal_iff :
    (as_ bs : List RecentDocument) → (are_recent_documents_equal as_ bs ≡ true) ↔ (as_ ≡ bs)
unfolding are_recent_documents_equal
are_recent_documents_equal_iff as_ bs = grind (arith, same_elements-eq as_ bs)
