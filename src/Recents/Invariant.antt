-- ===== src/Recents/Invariant.antt =====
-- Every action keeps the list of recent documents within its limit and free of repeated paths.
use yanta.Prelude.{
  ℕ, zero, suc, ◌+◌, ◌≤◌, ◌≡◌, refl, Bool, true, false, none, some, List, [], ◌∷◌, String, str_eq,
  take, length, arith, eq_iff, Option-cases, inl, inr, length-take,
}
use yanta.Recents.{
  RecentDocument, max_recent_documents, same_path, find_path, without, add_recent_document,
  remove_recent_document, set_title, update_recent_document_title, refresh, Fetched,
}

abbrev pub bit : Bool → ℕ
bit true = 1
bit false = 0

unfoldable pub count_path : String → List RecentDocument → ℕ
count_path x [] = 0
count_path x (d ∷ ds) = bit (same_path x d) + count_path x ds

pub record IsValid (docs : List RecentDocument) : Type 0 where
  pub within : length docs ≤ max_recent_documents
  pub once : (path : String) → count_path path docs ≤ 1

count_path-take :
    (n : ℕ) (x : String) (ds : List RecentDocument) → count_path x (take n ds) ≤ count_path x ds
unfolding count_path
count_path-take zero x ds = omega arith
count_path-take (suc n) x [] = omega arith
count_path-take (suc n) x (d ∷ ds) = omega (arith, count_path-take n x ds)

pub find_path-none :
    (x : String) (ds : List RecentDocument) → find_path x ds ≡ none → count_path x ds ≡ 0
unfolding find_path count_path
find_path-none x [] h = refl
find_path-none x (d ∷ ds) h = ground (arith, find_path-none x ds)

pub find_path-some :
    (x : String) (ds : List RecentDocument) (i : ℕ)
    → find_path x ds ≡ some i
    → (y : String) → count_path y (without i ds) + bit (str_eq x y) ≡ count_path y ds
unfolding find_path count_path without
find_path-some x [] i h y = cc
find_path-some x (d ∷ ds) zero h y = ground (arith, eq_iff d.path x, eq_iff d.path y, eq_iff x y)
find_path-some x (d ∷ ds) (suc i) h y =
    ground (arith, λ (later : find_path x ds ≡ some i). find_path-some x ds i later y)

pub count_path-set_title :
    (x : String) (i : ℕ) (title : String) (ds : List RecentDocument)
    → count_path x (set_title i title ds) ≡ count_path x ds
unfolding count_path set_title
count_path-set_title x i title [] = refl
count_path-set_title x zero title (d ∷ ds) = refl
count_path-set_title x (suc i) title (d ∷ ds) = omega (arith, count_path-set_title x i title ds)

pub add-IsValid :
    (d : RecentDocument) (docs : List RecentDocument)
    → IsValid docs
    → IsValid (add_recent_document d docs)
unfolding add_recent_document count_path
add-IsValid d docs v = elim (Option-cases (find_path d.path docs)) [
  | inl new ↦ rw new (record {
    within = omega (arith, length-take max_recent_documents (d ∷ docs));
    once = λ x. ground (
      arith,
      count_path-take 10 x (d ∷ docs),
      find_path-none d.path docs,
      v.once x,
      eq_iff d.path x,
    );
  })
  | inr (i, old) ↦ rw old (record {
    within = omega (arith, length-take max_recent_documents (d ∷ without i docs));
    once = λ x. ground (
      arith,
      count_path-take 10 x (d ∷ without i docs),
      find_path-some d.path docs i old x,
      v.once x,
    );
  })
]

-- A call of the store, or a refresh with the backend's answers.
pub data Call : Type 0 where
  add : (d : RecentDocument) → Call
  remove : (path : String) → Call
  update_title : (path title : String) → Call
  refresh_with : (fetch : String → Fetched) → Call

unfoldable pub run : Call → List RecentDocument → List RecentDocument
run (add d) docs = add_recent_document d docs
run (remove path) docs = remove_recent_document path docs
run (update_title path title) docs = update_recent_document_title path title docs
run (refresh_with fetch) docs = refresh fetch docs
