-- ===== src/Recents.antt =====
-- The recent documents, frontend/src/shared/stores/recentDocuments.store.ts: the store's actions,
-- and the refresh of titles against the backend, whose answers are an argument.
pub mod Invariant
pub mod Actions
pub mod Examples
use yanta.Prelude.{
  ℕ, suc, ◌≡◌, Bool, true, false, not, ◌&&◌, ◌||◌, Option, none, some, List, [], ◌∷◌, String,
  str_eq, ◌==◌, if◌then◌else◌, take, filter, length, get_elem?,
}
use mathlib.Core.Option

pub record RecentDocument : Type 0 where
  pub path : String
  pub title : String
  pub project_alias : String
  pub last_opened : ℕ

abbrev pub max_recent_documents : ℕ
max_recent_documents = 10

abbrev pub same_path : String → RecentDocument → Bool
same_path path d = str_eq d.path path

-- `findIndex`, with `none` for -1
pub find_path : String → List RecentDocument → Option ℕ
find_path path [] = none
find_path path (d ∷ ds) =
    let later = Option.map suc (find_path path ds) in if same_path path d then some 0 else later

-- `filter((_, i) => i !== index)`
pub without : ℕ → List RecentDocument → List RecentDocument
without i [] = []
without ℕ.zero (d ∷ ds) = ds
without (suc i) (d ∷ ds) = d ∷ without i ds

-- `new_doc` carries the time of the call.
pub add_recent_document : RecentDocument → List RecentDocument → List RecentDocument
add_recent_document new_doc docs = take max_recent_documents (elim (find_path new_doc.path docs) [
  | some i ↦ new_doc ∷ without i docs
  | none ↦ new_doc ∷ docs
])

pub remove_recent_document : String → List RecentDocument → List RecentDocument
remove_recent_document path docs = filter (λ d. not (same_path path d)) docs

-- `updated[idx] = { ...updated[idx], title }`
pub set_title : ℕ → String → List RecentDocument → List RecentDocument
set_title i title [] = []
set_title ℕ.zero title (d ∷ ds) = record d { title = title } ∷ ds
set_title (suc i) title (d ∷ ds) = d ∷ set_title i title ds

abbrev pub has_title : String → Option RecentDocument → Bool
has_title title none = false
has_title title (some d) = str_eq d.title title

abbrev pub retitle : String → Option ℕ → List RecentDocument → List RecentDocument
retitle title none docs = docs
retitle title (some i) docs =
    if has_title title (get_elem? docs i) then docs else set_title i title docs

pub update_recent_document_title : String → String → List RecentDocument → List RecentDocument
update_recent_document_title path title docs = retitle title (find_path path docs) docs

abbrev pub same_document : RecentDocument → RecentDocument → Bool
same_document a b =
    str_eq a.path b.path
    && str_eq a.title b.title
    && str_eq a.project_alias b.project_alias
    && a.last_opened == b.last_opened

-- The lengths are compared first, so the loop meets no missing element.
pub same_elements : List RecentDocument → List RecentDocument → Bool
same_elements [] bs = true
same_elements (a ∷ as_) [] = false
same_elements (a ∷ as_) (b ∷ bs) = same_document a b && same_elements as_ bs

pub are_recent_documents_equal : List RecentDocument → List RecentDocument → Bool
are_recent_documents_equal as_ bs = length as_ == length bs && same_elements as_ bs

-- What the backend answers for a path: an error, or a title (maybe empty) and whether the document
-- is deleted.
pub data Fetched : Type 0 where
  failed : Fetched
  fetched : (title : String) → (deleted : Bool) → Fetched

unfoldable pub refreshed : RecentDocument → Fetched → Option RecentDocument
refreshed d failed = none
refreshed d (fetched title true) = none
refreshed d (fetched title false) =
    some (record d { title = if str_eq title "" then d.title else title })

-- `if (latest) validated.push(latest)`
unfoldable pub push_kept : Option RecentDocument → List RecentDocument → List RecentDocument
push_kept none rest = rest
push_kept (some d) rest = d ∷ rest

pub refresh_all : (String → Fetched) → List RecentDocument → List RecentDocument
refresh_all fetch [] = []
refresh_all fetch (d ∷ ds) = push_kept (refreshed d (fetch d.path)) (refresh_all fetch ds)

-- The effect that runs when the paths change.
pub refresh : (String → Fetched) → List RecentDocument → List RecentDocument
refresh fetch docs =
    let validated = refresh_all fetch docs in
    if are_recent_documents_equal validated docs then docs else validated
