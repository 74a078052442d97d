-- ===== src/DocumentSort/Clicks.antt =====
-- The chosen order over sessions, frontend/src/dashboard/hooks/useDocumentSort.ts.
use yanta.Prelude.{Bool, false, Option, some, List, [], ◌∷◌, refl, ◌≡◌}
use yanta.Json.{Json}
use yanta.DocumentSort.{
  DocumentSortField, updated, created, title, SortDirection, asc, desc, SortConfig, to_json,
  validate, Sorting, next_sort, read_stored_sort, set_sort, mounted, clicks,
}

validate-to_json :
    (f : DocumentSortField) (d : SortDirection)
    → validate (some (to_json (record { field = f; direction = d })))
      ≡ record { field = f; direction = d }
unfolding validate
validate-to_json updated asc = refl
validate-to_json updated desc = refl
validate-to_json created asc = refl
validate-to_json created desc = refl
validate-to_json title asc = refl
validate-to_json title desc = refl

validate-config : (c : SortConfig) → validate (some (to_json c)) ≡ c
validate-config c = validate-to_json c.field c.direction

module _ {Text : Type 0} (parse : Text → Option Json) (stringify : Json → Text)
    (is_empty : Text → Bool)
    (back : (c : SortConfig) → parse (stringify (to_json c)) ≡ some (to_json c))
    (nonempty : (c : SortConfig) → is_empty (stringify (to_json c)) ≡ false) where
  clicks-stored :
      (fs : List DocumentSortField) (s : Sorting Text)
      → read_stored_sort parse stringify is_empty s.stored ≡ s.sort
      → read_stored_sort parse stringify is_empty (clicks parse stringify is_empty fs s).stored
        ≡ (clicks parse stringify is_empty fs s).sort
  unfolding clicks set_sort read_stored_sort
  clicks-stored [] s h = h
  clicks-stored (f ∷ fs) s h =
      let next = next_sort f s.sort in
      clicks-stored fs (set_sort parse stringify is_empty f s)
        (rw (nonempty next, back next) (validate-config next))

  -- Where JSON.parse gives back what JSON.stringify printed of a configuration, as a text that is not
  -- empty, the order that the user leaves after any clicks on the columns, in a dashboard that was
  -- mounted with any stored text, is the one that the next dashboard is mounted with.
  pub mounted-clicks :
      (fs : List DocumentSortField) (stored : Option Text)
      → (mounted parse stringify is_empty
          (clicks parse stringify is_empty fs
            (mounted parse stringify is_empty stored)).stored).sort
        ≡ (clicks parse stringify is_empty fs (mounted parse stringify is_empty stored)).sort
  mounted-clicks fs stored = clicks-stored fs (mounted parse stringify is_empty stored) refl
