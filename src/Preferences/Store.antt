-- ===== src/Preferences/Store.antt =====
-- The store of the preferences, frontend/src/shared/stores/preferences.store.ts: the overrides of
-- the session, and what is sent to the backend, whose answer is given. A property that is present
-- and `undefined` counts as missing.
use yanta.Prelude.{
  Bool, true, false, Option, none, some, String, List, [], ◌∷◌, lookup, insert, erase,
}
use yanta.Preferences.{
  Timeouts, Shortcuts, Editor, Plugins, Overrides, max_panes_of, linux_mode_of, theme_of, launch_of,
}
use yanta.Preferences.Merge.{property, groups}

pub record State (V : Type 0) : Type 0 where
  pub overrides : Option (Overrides V)
  pub is_loading : Bool

-- What a call sent, whether its promise was resolved, and the store after it.
pub record Outcome (V : Type 0) : Type 0 where
  pub sent : Option (Overrides V)
  pub resolved : Bool
  pub state : State V

abbrev pub no_overrides : {V : Type 0} → Overrides V
no_overrides = record {
  timeouts = none;
  shortcuts = none;
  layout = none;
  graphics = none;
  appearance = none;
  editor = none;
  general = none;
  plugins = none;
}

-- `get().overrides ?? {}`.
abbrev pub or_no_overrides : {V : Type 0} → Option (Overrides V) → Overrides V
or_no_overrides none = no_overrides
or_no_overrides (some o) = o

abbrev pub existing : {V : Type 0} → State V → Overrides V
existing s = or_no_overrides s.overrides

unfoldable pub load_overrides : {V : Type 0} → Option (Overrides V) → State V → State V
load_overrides none s = record s { is_loading = false }
load_overrides (some o) s = record s { overrides = some o; is_loading = false }

-- `{ ...a, ...b }`, of one property, and of objects with any keys.
abbrev pub later : {A : Type 0} → Option A → Option A → Option A
later a none = a
later a (some b) = some b

unfoldable pub spread : {A : Type 0} → List (String × A) → List (String × A) → List (String × A)
spread a [] = a
spread a ((k, v) ∷ b) = spread (insert k v a) b

abbrev pub or_empty : {A : Type 0} → Option (List A) → List A
or_empty none = []
or_empty (some l) = l

abbrev pub filled : {A : Type 0} → List A → Option (List A)
filled [] = none
filled (x ∷ l) = some (x ∷ l)

-- One group: the new keys over the existing ones, or the existing ones alone.
abbrev pub merged_group :
    Option (List (String × String))
    → Option (List (String × String))
    → Option (List (String × String))
merged_group old none = old
merged_group old (some []) = old
merged_group old (some (e ∷ es)) = some (spread (or_empty old) (e ∷ es))

abbrev pub write : {A : Type 0} → String → Option A → List (String × A) → List (String × A)
write k none m = m
write k (some v) m = insert k v m

abbrev pub group_of : String → Option Shortcuts → Option (List (String × String))
group_of g none = none
group_of g (some s) = lookup g s

unfoldable pub merge_saved :
    List String → Option Shortcuts → Option Shortcuts → Shortcuts → Shortcuts
merge_saved [] old new acc = acc
merge_saved (g ∷ gs) old new acc =
    merge_saved gs old new (write g (merged_group (group_of g old) (group_of g new)) acc)

unfoldable pub merge_plugins : {V : Type 0} → Plugins V → Plugins V → Plugins V
merge_plugins acc [] = acc
merge_plugins acc ((id, config) ∷ ps) =
    merge_plugins (insert id (spread (or_empty (lookup id acc)) config) acc) ps

abbrev spread_timeouts : Option Timeouts → Option Timeouts → Timeouts
spread_timeouts a b = record {
  auto_save_debounce_ms =
      later (property (λ (t : Timeouts). t.auto_save_debounce_ms) a)
        (property (λ (t : Timeouts). t.auto_save_debounce_ms) b);
  tooltip_hover_delay =
      later (property (λ (t : Timeouts). t.tooltip_hover_delay) a)
        (property (λ (t : Timeouts). t.tooltip_hover_delay) b);
  tooltip_focus_delay =
      later (property (λ (t : Timeouts). t.tooltip_focus_delay) a)
        (property (λ (t : Timeouts). t.tooltip_focus_delay) b);
  scroll_debounce_ms =
      later (property (λ (t : Timeouts). t.scroll_debounce_ms) a)
        (property (λ (t : Timeouts). t.scroll_debounce_ms) b);
  search_debounce_ms =
      later (property (λ (t : Timeouts). t.search_debounce_ms) a)
        (property (λ (t : Timeouts). t.search_debounce_ms) b);
  save_persistence_debounce_ms =
      later (property (λ (t : Timeouts). t.save_persistence_debounce_ms) a)
        (property (λ (t : Timeouts). t.save_persistence_debounce_ms) b);
}

abbrev spread_editor : Option Editor → Option Editor → Editor
spread_editor a b = record {
  font_size =
      later (property (λ (t : Editor). t.font_size) a) (property (λ (t : Editor). t.font_size) b);
  font_family =
      later (property (λ (t : Editor). t.font_family) a)
        (property (λ (t : Editor). t.font_family) b);
  line_width =
      later (property (λ (t : Editor). t.line_width) a) (property (λ (t : Editor). t.line_width) b);
  spellcheck =
      later (property (λ (t : Editor). t.spellcheck) a) (property (λ (t : Editor). t.spellcheck) b);
}

unfoldable pub merged_overrides : {V : Type 0} → Overrides V → Overrides V → Overrides V
merged_overrides old new = record {
  timeouts = some (spread_timeouts old.timeouts new.timeouts);
  shortcuts = filled (merge_saved groups old.shortcuts new.shortcuts []);
  layout = some (record { max_panes = later (max_panes_of old.layout) (max_panes_of new.layout) });
  graphics =
      some
        (record { linux_mode = later (linux_mode_of old.graphics) (linux_mode_of new.graphics) });
  appearance = some (record { theme = later (theme_of old.appearance) (theme_of new.appearance) });
  editor = some (spread_editor old.editor new.editor);
  general =
      some (record { launch_at_startup = later (launch_of old.general) (launch_of new.general) });
  plugins = filled (merge_plugins (or_empty old.plugins) (or_empty new.plugins));
}

-- The backend accepts what is sent, or the call is rejected and the store is left alone.
abbrev pub store : {V : Type 0} → Bool → Overrides V → State V → Outcome V
store true o s = record { sent = some o; resolved = true; state = record s { overrides = some o } }
store false o s = record { sent = some o; resolved = false; state = s }

unfoldable pub save_overrides : {V : Type 0} → Overrides V → Bool → State V → Outcome V
save_overrides new accepted s = store accepted (merged_overrides (existing s) new) s

-- The group without a key, and the groups without a group that is left empty.
abbrev pub updated_shortcuts : String → List (String × String) → Shortcuts → Shortcuts
updated_shortcuts g [] s = erase g s
updated_shortcuts g (e ∷ es) s = insert g (e ∷ es) s

abbrev pub delete_key :
    {V : Type 0}
    → String
    → String
    → Option String
    → List (String × String)
    → Bool
    → State V
    → Outcome V
delete_key g k none es accepted s = record { sent = none; resolved = true; state = s }
delete_key g k (some combo) es accepted s =
    let old = existing s in
    store accepted
      (record old {
        shortcuts = filled (updated_shortcuts g (erase k es) (or_empty old.shortcuts));
      })
      s

abbrev pub delete_in :
    {V : Type 0} → String → String → Option (List (String × String)) → Bool → State V → Outcome V
delete_in g k none accepted s = record { sent = none; resolved = true; state = s }
delete_in g k (some es) accepted s = delete_key g k (lookup k es) es accepted s

unfoldable pub delete_shortcut_override :
    {V : Type 0} → String → String → Bool → State V → Outcome V
delete_shortcut_override g k accepted s =
    delete_in g k (group_of g (existing s).shortcuts) accepted s
