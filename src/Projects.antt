-- ===== src/Projects.antt =====
-- The projects and the current one, frontend/src/shared/stores/project.store.ts, with the alias that
-- is kept in the browser's storage.
pub mod Laws
pub mod Examples
use yanta.Prelude.{
  Bool, true, false, not, ◌||◌, any, find, Option, none, some, String, str_eq, List, [], ◌∷◌,
  if◌then◌else◌,
}

pub record Project : Type 0 where
  pub id : String
  pub alias : String
  pub name : String

pub record ProjectState : Type 0 where
  pub current_project : Option Project
  pub previous_project : Option Project
  pub projects : List Project
  pub archived_projects : List Project
  pub is_loading : Bool
  pub load_error : Option String
  -- The stored alias of the last project.
  pub last_alias : Option String

-- `writeLastProjectAlias`
abbrev pub alias_to_keep : String → Option String
alias_to_keep alias = if str_eq alias "" then none else some alias

abbrev pub remember : Option Project → ProjectState → ProjectState
remember none s = s
remember (some p) s = record s { last_alias = alias_to_keep p.alias }

-- `project?.id === id`
abbrev pub has_id : String → Option Project → Bool
has_id id none = false
has_id id (some p) = str_eq p.id id

abbrev pub left_behind : Option Project → Option Project → Option Project → Option Project
left_behind none project previous = previous
left_behind (some current) project previous =
    if has_id current.id project then previous else some current

unfoldable pub set_current_project : Option Project → ProjectState → ProjectState
set_current_project project s = remember project (record s {
  current_project = project;
  previous_project = left_behind s.current_project project s.previous_project;
})

abbrev pub switched : Option Project → ProjectState → ProjectState
switched none s = s
switched (some previous) s = record s {
  current_project = some previous;
  previous_project = s.current_project;
}

unfoldable pub switch_to_last_project : ProjectState → ProjectState
switch_to_last_project s = switched s.previous_project s

abbrev pub first : List Project → Option Project
first [] = none
first (p ∷ ps) = some p

abbrev pub or_first : Option Project → List Project → Option Project
or_first (some p) active = some p
or_first none active = first active

-- An empty alias counts as none.
abbrev pub restored : Option String → List Project → Option Project
restored none active = none
restored (some alias) active =
    if str_eq alias "" then none else find (λ p. str_eq p.alias alias) active

abbrev pub is_active : Project → List Project → Bool
is_active prev active = any (λ p. str_eq p.id prev.id) active

-- With no active project the default is none, as the code's last branch has it.
abbrev pub next_current : Option Project → Option String → List Project → Option Project
next_current none last_alias active = or_first (restored last_alias active) active
next_current (some prev) last_alias active =
    if is_active prev active then some prev else or_first (restored last_alias active) active

abbrev pub loading : ProjectState → ProjectState
loading s = record s { is_loading = true; load_error = none }

-- What `loadProjects` does once the lists have arrived, and where they do not.
unfoldable pub projects_loaded : List Project → List Project → ProjectState → ProjectState
projects_loaded active archived s =
    let next = next_current s.current_project s.last_alias active in
    remember next (record s {
      projects = active;
      archived_projects = archived;
      current_project = next;
      is_loading = false;
      load_error = none;
    })

unfoldable pub projects_failed : String → ProjectState → ProjectState
projects_failed error s = record s { is_loading = false; load_error = some error }
