-- ===== src/Preferences/Merge.antt =====
-- The configuration in force, frontend/src/shared/stores/preferences.store.ts: the built-in values
-- of frontend/src/config/{timeouts,layout,shortcuts}.ts, with the user's overrides in their place.
-- Keys that objects inherit (`toString`) are no names of actions.
use yanta.Prelude.{
  ℕ, Option, none, some, String, str_eq, List, [], ◌∷◌, lookup, insert, if◌then◌else◌,
}
use yanta.Preferences.{
  Timeouts, Shortcuts, Layout, Graphics, Overrides, max_panes_of, linux_mode_of,
}
use yanta.Preferences.Defaults.{ShortcutDef, Defs, default_shortcuts}

pub record MergedTimeouts : Type 0 where
  pub tooltip_hover_delay : ℕ
  pub tooltip_focus_delay : ℕ
  pub tooltip_offset : ℕ
  pub scroll_debounce_ms : ℕ
  pub auto_save_debounce_ms : ℕ
  pub auto_save_max_retries : ℕ
  pub auto_save_retry_base_ms : ℕ
  pub saved_state_display_ms : ℕ
  pub welcome_delay_ms : ℕ
  pub save_persistence_debounce_ms : ℕ
  pub search_debounce_ms : ℕ
  pub document_picker_filter_debounce_ms : ℕ
  pub focus_restore_ms : ℕ
  pub git_error_dismiss_ms : ℕ
  pub help_announce_delay_ms : ℕ
  pub milestone_animation_ms : ℕ

abbrev pub default_timeouts : MergedTimeouts
default_timeouts = record {
  tooltip_hover_delay = 500;
  tooltip_focus_delay = 800;
  tooltip_offset = 8;
  scroll_debounce_ms = 200;
  auto_save_debounce_ms = 2000;
  auto_save_max_retries = 3;
  auto_save_retry_base_ms = 1000;
  saved_state_display_ms = 3000;
  welcome_delay_ms = 500;
  save_persistence_debounce_ms = 500;
  search_debounce_ms = 300;
  document_picker_filter_debounce_ms = 200;
  focus_restore_ms = 100;
  git_error_dismiss_ms = 300;
  help_announce_delay_ms = 50;
  milestone_animation_ms = 200;
}

abbrev pub default_max_panes : ℕ
default_max_panes = 4

-- `overrides?.x`, of a section's property.
abbrev pub property : {S A : Type 0} → (S → Option A) → Option S → Option A
property f none = none
property f (some s) = f s

abbrev pub or_default : {A : Type 0} → Option A → A → A
or_default none a = a
or_default (some b) a = b

abbrev pub merge_timeouts : Option Timeouts → MergedTimeouts
merge_timeouts o =
    let d = default_timeouts in
    record d {
      auto_save_debounce_ms =
          or_default (property (λ (t : Timeouts). t.auto_save_debounce_ms) o)
            d.auto_save_debounce_ms;
      tooltip_hover_delay =
          or_default (property (λ (t : Timeouts). t.tooltip_hover_delay) o) d.tooltip_hover_delay;
      tooltip_focus_delay =
          or_default (property (λ (t : Timeouts). t.tooltip_focus_delay) o) d.tooltip_focus_delay;
      scroll_debounce_ms =
          or_default (property (λ (t : Timeouts). t.scroll_debounce_ms) o) d.scroll_debounce_ms;
      search_debounce_ms =
          or_default (property (λ (t : Timeouts). t.search_debounce_ms) o) d.search_debounce_ms;
      save_persistence_debounce_ms =
          or_default (property (λ (t : Timeouts). t.save_persistence_debounce_ms) o)
            d.save_persistence_debounce_ms;
    }

abbrev pub merge_layout : Option Layout → ℕ
merge_layout o = or_default (max_panes_of o) default_max_panes

abbrev pub merge_graphics : Option Graphics → String
merge_graphics o = or_default (linux_mode_of o) "auto"

abbrev pub groups : List String
groups =
    "global" ∷ "sidebar" ∷ "document" ∷ "dashboard" ∷ "journal" ∷ "projects" ∷ "quickCapture"
    ∷ "settings" ∷ "commandLine" ∷ "search" ∷ "pane" ∷ []

abbrev with_key : String → String → Option ShortcutDef → Defs → Defs
with_key name combo none target = target
with_key name combo (some d) target = insert name (record d { key = combo }) target

abbrev pub override_key : String → String → Defs → Defs
override_key name combo target =
    if str_eq combo "" then target else with_key name combo (lookup name target) target

unfoldable pub override_keys : List (String × String) → Defs → Defs
override_keys [] target = target
override_keys ((name, combo) ∷ es) target = override_keys es (override_key name combo target)

abbrev pub override_group : Option (List (String × String)) → Defs → Defs
override_group none target = target
override_group (some es) target = override_keys es target

abbrev pub update_group :
    String
    → Option (List (String × String))
    → Option Defs
    → List (String × Defs)
    → List (String × Defs)
update_group g o none result = result
update_group g o (some target) result = insert g (override_group o target) result

unfoldable pub merge_groups : List String → Shortcuts → List (String × Defs) → List (String × Defs)
merge_groups [] s result = result
merge_groups (g ∷ gs) s result =
    merge_groups gs s (update_group g (lookup g s) (lookup g result) result)

abbrev pub merge_shortcuts : Option Shortcuts → List (String × Defs)
merge_shortcuts none = default_shortcuts
merge_shortcuts (some s) = merge_groups groups s default_shortcuts

pub record MergedConfig : Type 0 where
  pub timeouts : MergedTimeouts
  pub max_panes : ℕ
  pub linux_mode : String
  pub shortcuts : List (String × Defs)

unfoldable pub merged_config : {V : Type 0} → Overrides V → MergedConfig
merged_config o = record {
  timeouts = merge_timeouts o.timeouts;
  max_panes = merge_layout o.layout;
  linux_mode = merge_graphics o.graphics;
  shortcuts = merge_shortcuts o.shortcuts;
}
