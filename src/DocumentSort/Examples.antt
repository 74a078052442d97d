-- ===== src/DocumentSort/Examples.antt =====
-- The dashboard's order, frontend/src/dashboard/hooks/useDocumentSort.ts, with a storage that keeps
-- the JSON values themselves, and titles of two letters.
use yanta.Prelude.{
  ℕ, Bool, true, false, Option, none, some, String, str_eq, List, [], ◌∷◌, map, sort_by, refl, ◌≡◌,
  if◌then◌else◌,
}
use yanta.Json.{Json}
use yanta.DocumentSort.{
  DocumentSortField, updated, created, title, desc, SortConfig, Document, sorted_documents, mounted,
  clicks, set_sort, next_sort, read_stored_sort,
}
use yanta.DocumentSort.Clicks.{mounted-clicks}

abbrev never_empty : Json → Bool
never_empty v = false

abbrev parsed : Json → Option Json
parsed v = some v

abbrev printed : Json → Json
printed v = v

abbrev columns : List DocumentSortField
columns = title ∷ title ∷ created ∷ []

mounted-clicks_example :
    (mounted parsed printed never_empty
      (clicks parsed printed never_empty columns
        (mounted parsed printed never_empty none)).stored).sort
    ≡ (clicks parsed printed never_empty columns (mounted parsed printed never_empty none)).sort
mounted-clicks_example =
    mounted-clicks parsed printed never_empty (λ c. refl) (λ c. refl) columns none

after_two_clicks :
    (clicks parsed printed never_empty
      (title ∷ title ∷ [])
      (mounted parsed printed never_empty none)).sort
    ≡ record { field = title; direction = desc }
unfolding clicks set_sort next_sort read_stored_sort
after_two_clicks = refl

abbrev any_order : String → String → Bool
any_order s t = true

abbrev late_b : String → ℕ
late_b s = if str_eq s "b" then 2 else 1

abbrev document : String → Document
document s = record { path = s; title = s; created = s; updated = s }

abbrev newest : SortConfig
newest = record { field = updated; direction = desc }

abbrev three : List Document
three = document "a" ∷ document "b" ∷ document "c" ∷ []

-- Documents of the same time keep their order.
newest_shown :
    map (λ d. d.path) (sorted_documents any_order late_b newest three) ≡ "b" ∷ "a" ∷ "c" ∷ []
unfolding sorted_documents sort_by
newest_shown = refl
