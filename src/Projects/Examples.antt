-- ===== src/Projects/Examples.antt =====
-- Two active projects.
use yanta.Prelude.{none, some, [], ◌∷◌}
use yanta.Projects.{Project, ProjectState, projects_loaded}
use yanta.Projects.Laws.{Listed, projects_loaded-Listed, new_session}

abbrev home : Project
home = record { id = "1"; alias = "home"; name = "Home" }

abbrev work : Project
work = record { id = "2"; alias = "work"; name = "Work" }

abbrev at_home : ProjectState
at_home = record (new_session none) { current_project = some home; previous_project = some work }

projects_loaded-Listed_example :
    Listed (projects_loaded (work ∷ []) (home ∷ []) at_home).current_project (work ∷ [])
projects_loaded-Listed_example = projects_loaded-Listed (work ∷ []) (home ∷ []) at_home
