-- ===== src/Progress.antt =====
-- The user's progress, frontend/src/shared/stores/progress.store.ts, with what the browser's
-- storage keeps of it. The storage's texts, JSON.parse (`none` where it throws), JSON.stringify and
-- whether a text is empty are parameters. When they are called
-- is in Persist.antt.
pub mod Sessions
pub mod Examples
use yanta.Prelude.{
  ℕ, zero, ◌+◌, ◌==◌, Bool, true, false, ◌&&◌, ◌||◌, Option, none, some, String, str_eq, List, [],
  ◌∷◌, ◌++◌, length, any, if◌then◌else◌,
}
use yanta.Json.{
  Json, null, bool, num, str, arr, obj, Members, last, member, get, of_list, number_or,
  array_or_empty,
}

pub record UserProgressData : Type 0 where
  pub documents_created : ℕ
  pub journal_entries_created : ℕ
  pub projects_switched : ℕ
  pub hints_shown : List Json

abbrev pub default_progress : UserProgressData
default_progress = record {
  documents_created = 0;
  journal_entries_created = 0;
  projects_switched = 0;
  hints_shown = [];
}

unfoldable pub validate_progress_data : Json → Option UserProgressData
validate_progress_data null = none
validate_progress_data (bool b) = none
validate_progress_data (num n) = none
validate_progress_data (str s) = none
validate_progress_data (arr l) = none
validate_progress_data (obj parsed) = some (record {
  documents_created = number_or 0 (get "documentsCreated" parsed);
  journal_entries_created = number_or 0 (get "journalEntriesCreated" parsed);
  projects_switched = number_or 0 (get "projectsSwitched" parsed);
  hints_shown = array_or_empty (get "hintsShown" parsed);
})

abbrev pub to_json : UserProgressData → Json
to_json d = obj (
    member "documentsCreated" (num d.documents_created) (
      member "journalEntriesCreated" (num d.journal_entries_created) (
        member "projectsSwitched" (num d.projects_switched)
          (member "hintsShown" (arr (of_list d.hints_shown)) last))))

-- `parsed?.state ?? parsed`: the format that wraps the state, and the flat one.
abbrev or_parsed : Json → Option Json → Json
or_parsed parsed none = parsed
or_parsed parsed (some null) = parsed
or_parsed parsed (some (bool b)) = bool b
or_parsed parsed (some (num n)) = num n
or_parsed parsed (some (str s)) = str s
or_parsed parsed (some (arr l)) = arr l
or_parsed parsed (some (obj m)) = obj m

abbrev pub to_validate : Json → Json
to_validate null = null
to_validate (bool b) = bool b
to_validate (num n) = num n
to_validate (str s) = str s
to_validate (arr l) = arr l
to_validate (obj m) = or_parsed (obj m) (get "state" m)

abbrev pub is_default : UserProgressData → Bool
is_default d =
    d.documents_created == 0
    && (d.journal_entries_created == 0 && (d.projects_switched == 0 && length d.hints_shown == 0))

abbrev is_hint : String → Json → Bool
is_hint id (str s) = str_eq s id
is_hint id other = false

unfoldable pub has_hint_been_shown : String → UserProgressData → Bool
has_hint_been_shown id d = any (is_hint id) d.hints_shown

unfoldable pub mark_hint_shown : String → UserProgressData → UserProgressData
mark_hint_shown id d =
    if has_hint_been_shown id d
    then d
    else record d { hints_shown = d.hints_shown ++ (str id ∷ []) }

pub data Action : Type 0 where
  increment_documents_created increment_journal_entries_created increment_projects_switched : Action
  mark_hint : String → Action
  reset_progress : Action

-- The state after an action of the store.
unfoldable pub act : Action → UserProgressData → UserProgressData
act increment_documents_created d = record d { documents_created = d.documents_created + 1 }
act increment_journal_entries_created d = record d {
  journal_entries_created = d.journal_entries_created + 1;
}
act increment_projects_switched d = record d { projects_switched = d.projects_switched + 1 }
act (mark_hint id) d = mark_hint_shown id d
act reset_progress d = default_progress

module _ {Text : Type 0} (parse : Text → Option Json) (stringify : Json → Text)
    (is_empty : Text → Bool) where
  abbrev read : Option Json → Option UserProgressData
  read none = none
  read (some parsed) = validate_progress_data (to_validate parsed)

  unfoldable pub get_item : Option Text → Option UserProgressData
  get_item none = none
  get_item (some raw) = if is_empty raw then none else read (parse raw)

  unfoldable pub set_item : UserProgressData → Option Text
  set_item d = if is_default d then none else some (stringify (to_json d))
