-- ===== src/Projects/Laws.antt =====
-- The current project is an active one, and a session goes on with the project that was set last.
use yanta.Prelude.{
  ◌≡◌, ◌≢◌, refl, sym, ap, ◌∙◌, Bool, true, false, ◌||◌, Bool-cases, inl, inr, find, Option, none,
  some, String, str_eq, str_eq-ne, eq_refl, List, [], ◌∷◌, arith,
}
use yanta.Projects.{
  Project, ProjectState, alias_to_keep, remember, left_behind, set_current_project, switched,
  switch_to_last_project, or_first, restored, is_active, next_current, projects_loaded,
}

-- A project of the list.
abbrev pub Listed : Option Project → List Project → Type 0
Listed none active = active ≡ []
Listed (some p) active = is_active p active ≡ true

is_active_head :
    (q p : Project) (active : List Project) → q.id ≡ p.id → is_active p (q ∷ active) ≡ true
is_active_head q p active e = rw (e, eq_refl p.id) refl

is_active_tail :
    (q p : Project) (active : List Project)
    → is_active p active ≡ true
    → is_active p (q ∷ active) ≡ true
is_active_tail q p active h = or_right (str_eq q.id p.id) (is_active p active) h
  where
    or_right : (a b : Bool) → b ≡ true → (a || b) ≡ true
    or_right true b h = refl
    or_right false b h = h

find-Listed :
    (test : Project → Bool) (active : List Project) (p : Project)
    → find test active ≡ some p
    → is_active p active ≡ true
find-Listed test [] p h = absurd (ground arith)
find-Listed test (q ∷ active) p h = elim (Bool-cases (test q)) [
  | inl here ↦ is_active_head q p active (same (rw here at h))
  | inr later ↦ is_active_tail q p active (find-Listed test active p (rw later at h))
]
  where
    same : some q ≡ some p → q.id ≡ p.id
    same e = cc e

restored-Listed :
    (last_alias : Option String) (active : List Project) (p : Project)
    → restored last_alias active ≡ some p
    → is_active p active ≡ true
restored-Listed none active p h = absurd (ground arith)
restored-Listed (some alias) active p h = elim (Bool-cases (str_eq alias "")) [
  | inl empty ↦ absurd (none_is_some (rw empty at h))
  | inr given ↦ find-Listed (λ q. str_eq q.alias alias) active p (rw given at h)
]
  where
    none_is_some : ◌≡◌ {A = Option Project} none (some p) → ⊥
    none_is_some e = cc e

or_first-Listed :
    (o : Option Project) (active : List Project)
    → ((p : Project) → o ≡ some p → is_active p active ≡ true)
    → Listed (or_first o active) active
or_first-Listed (some p) active h = h p refl
or_first-Listed none [] h = refl
or_first-Listed none (q ∷ active) h = is_active_head q q active refl

next_current-Listed :
    (current : Option Project) (last_alias : Option String) (active : List Project)
    → Listed (next_current current last_alias active) active
next_current-Listed none last_alias active =
    or_first-Listed (restored last_alias active) active (restored-Listed last_alias active)
next_current-Listed (some prev) last_alias active = elim (Bool-cases (is_active prev active)) [
  | inl still ↦ rw still still
  | inr gone ↦
      rw gone
        (or_first-Listed (restored last_alias active) active (restored-Listed last_alias active))
]

current-remember :
    (o : Option Project) (s : ProjectState) → (remember o s).current_project ≡ s.current_project
current-remember none s = refl
current-remember (some p) s = refl

-- Once the projects have arrived, the current one is among the active ones, and there is none only
-- where no project is active.
pub projects_loaded-Listed :
    (active archived : List Project) (s : ProjectState)
    → Listed (projects_loaded active archived s).current_project active
unfolding projects_loaded
projects_loaded-Listed active archived s =
    rw (current-remember (next_current s.current_project s.last_alias active) loaded)
      (next_current-Listed s.current_project s.last_alias active)
  where
    loaded : ProjectState
    loaded = record s {
      projects = active;
      archived_projects = archived;
      current_project = next_current s.current_project s.last_alias active;
      is_loading = false;
      load_error = none;
    }

-- Switching to the last project and back changes nothing, where there is a current project and a
-- previous one.
pub switch_to_last_project_involutive :
    (s : ProjectState) (current previous : Project)
    → s.current_project ≡ some current
    → s.previous_project ≡ some previous
    → switch_to_last_project (switch_to_last_project s) ≡ s
unfolding switch_to_last_project
switch_to_last_project_involutive s current previous h k =
    ap switch_to_last_project once
    ∙ ap (λ o. switched o there) h
    ∙ back (some current) (some previous) (sym h) (sym k)
  where
    there : ProjectState
    there = record s { current_project = some previous; previous_project = s.current_project }

    once : switched s.previous_project s ≡ there
    once = ap (λ o. switched o s) k

    back :
        (c p : Option Project)
        → c ≡ s.current_project
        → p ≡ s.previous_project
        → record s { current_project = c; previous_project = p } ≡ s
    back c p e e' = rw (e, e') refl

-- Setting another project and switching to the last one goes back to the project before.
pub switch-set_current_project :
    (s : ProjectState) (current project : Project)
    → s.current_project ≡ some current
    → project.id ≢ current.id
    → (switch_to_last_project (set_current_project (some project) s)).current_project ≡ some current
unfolding switch_to_last_project set_current_project
switch-set_current_project s current project h k =
    ap (λ o. (switched o now).current_project)
      (ap (λ o. left_behind o (some project) s.previous_project) h ∙ left)
  where
    now : ProjectState
    now = set_current_project (some project) s

    left : left_behind (some current) (some project) s.previous_project ≡ some current
    left = rw (str_eq-ne project.id current.id k) refl

-- The state of a new session, which has the stored alias and nothing else.
abbrev pub new_session : Option String → ProjectState
new_session last_alias = record {
  current_project = none;
  previous_project = none;
  projects = [];
  archived_projects = [];
  is_loading = false;
  load_error = none;
  last_alias = last_alias;
}

-- A new session goes on with the project that was set last, where it is the first active project of
-- its alias, and that is not empty.
pub new_session-set_current_project :
    (s : ProjectState) (project : Project) (active archived : List Project)
    → project.alias ≢ ""
    → find (λ p. str_eq p.alias project.alias) active ≡ some project
    → (projects_loaded active archived
        (new_session (set_current_project (some project) s).last_alias)).current_project
      ≡ some project
unfolding projects_loaded set_current_project
new_session-set_current_project s project active archived h k =
    current-remember next (record (new_session kept) {
      projects = active;
      archived_projects = archived;
      current_project = next;
    })
    ∙ ap (λ a. or_first (restored a active) active) is_kept
    ∙ ap (λ o. or_first o active) found
  where
    not_empty : str_eq project.alias "" ≡ false
    not_empty = str_eq-ne project.alias "" h

    kept : Option String
    kept = alias_to_keep project.alias

    next : Option Project
    next = next_current none kept active

    is_kept : kept ≡ some project.alias
    is_kept = rw not_empty refl

    found : restored (some project.alias) active ≡ some project
    found = rw not_empty k
