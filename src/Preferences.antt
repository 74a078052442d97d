-- ===== src/Preferences.antt =====
-- User preferences: the conversion between the backend's model and the page's overrides,
-- frontend/src/config/preferences.ts, and the sending of it,
-- frontend/src/shared/services/ConfigService.ts. A missing property is `none`; numbers are the
-- natural ones; a theme and a graphics mode are texts, as in the backend's model. A record of
-- JavaScript whose keys are texts is an association list in insertion order; a plugin's settings
-- are of any type. The generated classes that carry the model over the bridge are left out.
pub mod Defaults
pub mod Groups
pub mod Merge
pub mod Store
pub mod RoundTrip
pub mod Saving
pub mod Deleting
pub mod Examples
use yanta.Prelude.{
  ℕ, zero, suc, Bool, true, false, ◌||◌, Option, none, some, String, str_eq, List, [], ◌∷◌, lookup,
  insert, if◌then◌else◌,
}

pub record Timeouts : Type 0 where
  pub auto_save_debounce_ms : Option ℕ
  pub tooltip_hover_delay : Option ℕ
  pub tooltip_focus_delay : Option ℕ
  pub scroll_debounce_ms : Option ℕ
  pub search_debounce_ms : Option ℕ
  pub save_persistence_debounce_ms : Option ℕ

-- The groups of shortcuts, each from names of actions to key combinations.
abbrev pub Shortcuts : Type 0
Shortcuts = List (String × List (String × String))

pub record Layout : Type 0 where
  pub max_panes : Option ℕ

pub record Graphics : Type 0 where
  pub linux_mode : Option String

pub record Appearance : Type 0 where
  pub theme : Option String

pub record Editor : Type 0 where
  pub font_size : Option ℕ
  pub font_family : Option String
  pub line_width : Option ℕ
  pub spellcheck : Option Bool

pub record General : Type 0 where
  pub launch_at_startup : Option Bool

abbrev pub Plugins : Type 0 → Type 0
Plugins V = List (String × List (String × V))

-- `PreferencesOverrides`, and the backend's model, which has the same sections.
pub record Overrides (V : Type 0) : Type 0 where
  pub timeouts : Option Timeouts
  pub shortcuts : Option Shortcuts
  pub layout : Option Layout
  pub graphics : Option Graphics
  pub appearance : Option Appearance
  pub editor : Option Editor
  pub general : Option General
  pub plugins : Option (Plugins V)

-- What `if (x)` keeps of a number, and of a text.
abbrev pub truthy : Option ℕ → Option ℕ
truthy none = none
truthy (some zero) = none
truthy (some (suc n)) = some (suc n)

abbrev pub truthy_text : Option String → Option String
truthy_text none = none
truthy_text (some s) = if str_eq s "" then none else some s

abbrev pub is_theme_mode : String → Bool
is_theme_mode v = str_eq v "dark" || (str_eq v "light" || str_eq v "system")

abbrev pub to_pascal : List (String × String)
to_pascal =
    ("global", "Global")
    ∷ ("sidebar", "Sidebar")
    ∷ ("document", "Document")
    ∷ ("dashboard", "Dashboard")
    ∷ ("journal", "Journal")
    ∷ ("projects", "Projects")
    ∷ ("quickCapture", "QuickCapture")
    ∷ ("settings", "Settings")
    ∷ ("commandLine", "CommandLine")
    ∷ ("search", "Search")
    ∷ ("pane", "Pane")
    ∷ []

abbrev pub to_camel : List (String × String)
to_camel =
    ("Global", "global")
    ∷ ("Sidebar", "sidebar")
    ∷ ("Document", "document")
    ∷ ("Dashboard", "dashboard")
    ∷ ("Journal", "journal")
    ∷ ("Projects", "projects")
    ∷ ("QuickCapture", "quickCapture")
    ∷ ("Settings", "settings")
    ∷ ("CommandLine", "commandLine")
    ∷ ("Search", "search")
    ∷ ("Pane", "pane")
    ∷ []

-- `keyMap[k] ?? k`.
abbrev or_itself : String → Option String → String
or_itself k none = k
or_itself k (some name) = name

abbrev pub rename : List (String × String) → String → String
rename key_map k = or_itself k (lookup k key_map)

-- A group is written unless it is empty.
abbrev pub write_group : String → List (String × String) → Shortcuts → Shortcuts
write_group k [] acc = acc
write_group k (e ∷ es) acc = insert k (e ∷ es) acc

unfoldable pub copy_groups : List (String × String) → Shortcuts → Shortcuts → Shortcuts
copy_groups key_map acc [] = acc
copy_groups key_map acc ((k, v) ∷ s) = copy_groups key_map (write_group (rename key_map k) v acc) s

abbrev pub copy_timeouts : Timeouts → Timeouts
copy_timeouts t = record {
  auto_save_debounce_ms = truthy t.auto_save_debounce_ms;
  tooltip_hover_delay = truthy t.tooltip_hover_delay;
  tooltip_focus_delay = truthy t.tooltip_focus_delay;
  scroll_debounce_ms = truthy t.scroll_debounce_ms;
  search_debounce_ms = truthy t.search_debounce_ms;
  save_persistence_debounce_ms = truthy t.save_persistence_debounce_ms;
}

abbrev pub no_timeouts : Timeouts
no_timeouts = record {
  auto_save_debounce_ms = none;
  tooltip_hover_delay = none;
  tooltip_focus_delay = none;
  scroll_debounce_ms = none;
  search_debounce_ms = none;
  save_persistence_debounce_ms = none;
}

abbrev pub no_editor : Editor
no_editor = record { font_size = none; font_family = none; line_width = none; spellcheck = none }

-- The sections of `preferencesFromModel`.
abbrev timeouts_from : Option Timeouts → Option Timeouts
timeouts_from none = none
timeouts_from (some t) = some (copy_timeouts t)

abbrev shortcuts_from : Option Shortcuts → Option Shortcuts
shortcuts_from none = none
shortcuts_from (some s) = some (copy_groups to_camel [] s)

abbrev pub max_panes_of : Option Layout → Option ℕ
max_panes_of none = none
max_panes_of (some l) = l.max_panes

abbrev pub some_layout : Option ℕ → Option Layout
some_layout none = none
some_layout (some n) = some (record { max_panes = some n })

abbrev pub linux_mode_of : Option Graphics → Option String
linux_mode_of none = none
linux_mode_of (some g) = g.linux_mode

abbrev pub some_graphics : Option String → Option Graphics
some_graphics none = none
some_graphics (some m) = some (record { linux_mode = some m })

abbrev pub theme_of : Option Appearance → Option String
theme_of none = none
theme_of (some a) = a.theme

abbrev pub some_appearance : Option String → Option Appearance
some_appearance none = none
some_appearance (some v) = if is_theme_mode v then some (record { theme = some v }) else none

abbrev pub launch_of : Option General → Option Bool
launch_of none = none
launch_of (some g) = g.launch_at_startup

abbrev pub some_general : Option Bool → Option General
some_general none = none
some_general (some b) = some (record { launch_at_startup = some b })

-- A section that is missing or empty, of either conversion, is left out.
abbrev pub filled_plugins : {V : Type 0} → Option (Plugins V) → Option (Plugins V)
filled_plugins none = none
filled_plugins (some []) = none
filled_plugins (some (p ∷ ps)) = some (p ∷ ps)

unfoldable pub preferences_from_model : {V : Type 0} → Overrides V → Overrides V
preferences_from_model model = record {
  timeouts = timeouts_from model.timeouts;
  shortcuts = shortcuts_from model.shortcuts;
  layout = some_layout (truthy (max_panes_of model.layout));
  graphics = some_graphics (truthy_text (linux_mode_of model.graphics));
  appearance = some_appearance (truthy_text (theme_of model.appearance));
  editor = model.editor;
  general = some_general (launch_of model.general);
  plugins = filled_plugins model.plugins;
}

-- The sections of `preferencesToModel`, which are all present.
abbrev timeouts_to : Option Timeouts → Timeouts
timeouts_to none = no_timeouts
timeouts_to (some t) = copy_timeouts t

abbrev shortcuts_to : Option Shortcuts → Shortcuts
shortcuts_to none = []
shortcuts_to (some s) = copy_groups to_pascal [] s

abbrev editor_to : Option Editor → Editor
editor_to none = no_editor
editor_to (some e) = e

abbrev plugins_to : {V : Type 0} → Option (Plugins V) → Plugins V
plugins_to none = []
plugins_to (some ps) = ps

unfoldable pub preferences_to_model : {V : Type 0} → Overrides V → Overrides V
preferences_to_model o = record {
  timeouts = some (timeouts_to o.timeouts);
  shortcuts = some (shortcuts_to o.shortcuts);
  layout = some (record { max_panes = truthy (max_panes_of o.layout) });
  graphics = some (record { linux_mode = truthy_text (linux_mode_of o.graphics) });
  appearance = some (record { theme = truthy_text (theme_of o.appearance) });
  editor = some (editor_to o.editor);
  general = some (record { launch_at_startup = launch_of o.general });
  plugins = some (plugins_to o.plugins);
}

-- What `setPreferencesOverrides` hands to the backend: it names six of the eight sections.
unfoldable pub set_preferences_overrides : {V : Type 0} → Overrides V → Overrides V
set_preferences_overrides o =
    let model = preferences_to_model o in record model { editor = none; general = none }

-- What `getPreferencesOverrides` reads back, where the backend keeps the model as it was sent.
unfoldable pub reloaded : {V : Type 0} → Overrides V → Overrides V
reloaded o = preferences_from_model (set_preferences_overrides o)
