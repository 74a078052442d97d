-- ===== src/DocumentSort.antt =====
-- The order of the documents on the dashboard, frontend/src/dashboard/hooks/useDocumentSort.ts. The
-- storage's texts, JSON.parse (`none` where it throws), JSON.stringify, whether a text is empty,
-- `localeCompare` and the time that a date names are given. Dates are valid ones.
pub mod Clicks
pub mod Order
pub mod Examples
use yanta.Prelude.{
  ℕ, leb, Bool, true, false, Option, none, some, String, str_eq, List, [], ◌∷◌, sort_by,
  if◌then◌else◌,
}
use yanta.Json.{Json, null, bool, num, str, arr, obj, member, last, get}

pub data DocumentSortField : Type 0 where
  updated created title : DocumentSortField

pub data SortDirection : Type 0 where
  asc desc : SortDirection

pub record SortConfig : Type 0 where
  pub field : DocumentSortField
  pub direction : SortDirection

abbrev pub default_sort : SortConfig
default_sort = record { field = updated; direction = desc }

abbrev pub field_name : DocumentSortField → String
field_name updated = "updated"
field_name created = "created"
field_name title = "title"

abbrev pub direction_name : SortDirection → String
direction_name asc = "asc"
direction_name desc = "desc"

abbrev field_named : String → Option DocumentSortField
field_named s =
    if str_eq s "updated"
    then some updated
    else if str_eq s "created"
    then some created
    else if str_eq s "title"
    then some title
    else none

abbrev direction_named : String → Option SortDirection
direction_named s = if str_eq s "asc" then some asc else if str_eq s "desc" then some desc else none

abbrev config_of : Option DocumentSortField → Option SortDirection → SortConfig
config_of (some f) (some d) = record { field = f; direction = d }
config_of none d = default_sort
config_of (some f) none = default_sort

abbrev named : Option Json → Option Json → SortConfig
named (some (str f)) (some (str d)) = config_of (field_named f) (direction_named d)
named f d = default_sort

-- The test of `readStoredSort`, on what was parsed.
unfoldable pub validate : Option Json → SortConfig
validate (some (obj m)) = named (get "field" m) (get "direction" m)
validate other = default_sort

abbrev pub to_json : SortConfig → Json
to_json c = obj (
    member "field" (str (field_name c.field))
      (member "direction" (str (direction_name c.direction)) last))

abbrev pub flipped : SortDirection → SortDirection
flipped asc = desc
flipped desc = asc

abbrev pub same_field : DocumentSortField → DocumentSortField → Bool
same_field updated updated = true
same_field created created = true
same_field title title = true
same_field f g = false

abbrev pub first_direction : DocumentSortField → SortDirection
first_direction title = asc
first_direction updated = desc
first_direction created = desc

-- The next state of `setSort`.
unfoldable pub next_sort : DocumentSortField → SortConfig → SortConfig
next_sort field prev =
    if same_field prev.field field
    then record { field = field; direction = flipped prev.direction }
    else record { field = field; direction = first_direction field }

-- The hook's state, and what the storage keeps under its key.
pub record Sorting (Text : Type 0) : Type 0 where
  pub sort : SortConfig
  pub stored : Option Text

module _ {Text : Type 0} (parse : Text → Option Json) (stringify : Json → Text)
    (is_empty : Text → Bool) where
  unfoldable pub read_stored_sort : Option Text → SortConfig
  read_stored_sort none = default_sort
  read_stored_sort (some raw) = if is_empty raw then default_sort else validate (parse raw)

  unfoldable pub set_sort : DocumentSortField → Sorting Text → Sorting Text
  set_sort field s = record {
    sort = next_sort field s.sort;
    stored = some (stringify (to_json (next_sort field s.sort)));
  }

  abbrev pub mounted : Option Text → Sorting Text
  mounted stored = record { sort = read_stored_sort stored; stored = stored }

  unfoldable pub clicks : List DocumentSortField → Sorting Text → Sorting Text
  clicks [] s = s
  clicks (f ∷ fs) s = clicks fs (set_sort f s)

-- What the order reads of a document.
pub record Document : Type 0 where
  pub path : String
  pub title : String
  pub created : String
  pub updated : String

-- A comparison in its own direction, or the other way round.
abbrev pub either_way : SortDirection → Bool → Bool → Bool
either_way asc forth back = forth
either_way desc forth back = back

module _ (title_le : String → String → Bool) (time : String → ℕ) where
  -- The comparison gives no positive number.
  abbrev pub ascending : DocumentSortField → Document → Document → Bool
  ascending title a b = title_le a.title b.title
  ascending created a b = leb (time a.created) (time b.created)
  ascending updated a b = leb (time a.updated) (time b.updated)

  abbrev pub in_order : SortConfig → Document → Document → Bool
  in_order c a b = either_way c.direction (ascending c.field a b) (ascending c.field b a)

  unfoldable pub sorted_documents : SortConfig → List Document → List Document
  sorted_documents c docs = sort_by (in_order c) docs
