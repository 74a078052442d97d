-- ===== src/Preferences/RoundTrip.antt =====
-- What of the preferences outlives the session: frontend/src/config/preferences.ts between
-- frontend/src/shared/services/ConfigService.ts and the merge of
-- frontend/src/shared/stores/preferences.store.ts.
use yanta.Prelude.{ℕ, true, Option, none, some, String, [], keys, Distinct, All, ◌≡◌, ◌≢◌}
use yanta.Preferences.{
  Timeouts, Shortcuts, Plugins, Overrides, is_theme_mode, max_panes_of, linux_mode_of, theme_of,
}
use yanta.Preferences.Groups.{is_group}

-- No property is 0, which stands for the default in the backend's model.
abbrev pub IsNonzero : Option ℕ → Type 0
IsNonzero none = Unit
IsNonzero (some n) = n ≢ 0

abbrev pub IsNonempty : Option String → Type 0
IsNonempty none = Unit
IsNonempty (some s) = s ≢ ""

abbrev pub AreNonzero : Option Timeouts → Type 0
AreNonzero none = Unit
AreNonzero (some t) =
    IsNonzero t.auto_save_debounce_ms
    × IsNonzero t.tooltip_hover_delay
    × IsNonzero t.tooltip_focus_delay
    × IsNonzero t.scroll_debounce_ms
    × IsNonzero t.search_debounce_ms
    × IsNonzero t.save_persistence_debounce_ms

abbrev pub IsTheme : Option String → Type 0
IsTheme none = Unit
IsTheme (some v) = is_theme_mode v ≡ true

abbrev pub AreGroups : Option Shortcuts → Type 0
AreGroups none = Unit
AreGroups (some s) = Distinct (keys s) × All (λ k. is_group k ≡ true) (keys s)

-- The overrides are of the declared type, with no number 0 and no empty mode.
pub record IsTyped {V : Type 0} (o : Overrides V) : Type 0 where
  pub timeouts : AreNonzero o.timeouts
  pub max_panes : IsNonzero (max_panes_of o.layout)
  pub linux_mode : IsNonempty (linux_mode_of o.graphics)
  pub theme : IsTheme (theme_of o.appearance)
  pub shortcuts : AreGroups o.shortcuts

-- The plugins' settings, where none are stored: an empty record.
abbrev pub plugins_of : {V : Type 0} → Option (Plugins V) → Plugins V
plugins_of none = []
plugins_of (some ps) = ps
