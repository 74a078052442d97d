-- ===== src/Preferences/Examples.antt =====
-- The preferences at work, frontend/src/shared/stores/preferences.store.ts.
use yanta.Prelude.{true, false, none, some, String, [], ◌∷◌, refl, ◌≡◌}
use yanta.Preferences.{
  Overrides, no_timeouts, no_editor, reloaded, preferences_from_model, preferences_to_model,
  set_preferences_overrides,
}
use yanta.Preferences.Merge.{merged_config}
use yanta.Preferences.Store.{
  State, existing, later, no_overrides, spread, merge_saved, merge_plugins, merged_overrides,
  save_overrides, load_overrides,
}
use yanta.Preferences.RoundTrip.{plugins_of}
use yanta.Preferences.Saving.{combo, combo-save_overrides}

abbrev chosen : Overrides String
chosen = record no_overrides {
  timeouts = some (record no_timeouts { auto_save_debounce_ms = some 5000 });
  shortcuts =
      some
        (("global", ("help", "mod+/") ∷ []) ∷ ("pane", []) ∷ ("search", ("open", "o") ∷ []) ∷ []);
  layout = some (record { max_panes = some 6 });
  appearance = some (record { theme = some "light" });
  editor = some (record no_editor { font_size = some 18 });
  plugins = some (("clock", ("zone", "utc") ∷ []) ∷ []);
}

abbrev running : State String
running = record { overrides = some chosen; is_loading = false }

abbrev change : Overrides String
change = record no_overrides { shortcuts = some (("global", ("quit", "mod+Q") ∷ []) ∷ []) }

combo-save_overrides_example :
    (combo "global" "help" (existing (save_overrides change true running).state).shortcuts
      ≡ later (combo "global" "help" chosen.shortcuts) (combo "global" "help" change.shortcuts))
    × ((save_overrides change true running).sent
        ≡ (save_overrides change true running).state.overrides)
    × ((save_overrides change false running).state ≡ running)
combo-save_overrides_example =
    combo-save_overrides "global" "help" change running refl (((tt, tt), tt))

-- A delay of 0 holds until the overrides are read back.
abbrev no_delay : Overrides String
no_delay = record no_overrides {
  timeouts = some (record no_timeouts { tooltip_hover_delay = some 0 });
}

no_delay-session : (merged_config no_delay).timeouts.tooltip_hover_delay ≡ 0
unfolding merged_config
no_delay-session = refl

no_delay-reloaded : (merged_config (reloaded no_delay)).timeouts.tooltip_hover_delay ≡ 500
unfolding merged_config reloaded preferences_from_model set_preferences_overrides
    preferences_to_model
no_delay-reloaded = refl

-- A save for one plugin leaves the settings of the others.
plugins-merge :
    plugins_of
      (existing
        (save_overrides
          (record no_overrides { plugins = some (("notes", ("on", "yes") ∷ []) ∷ []) })
          true
          running).state).plugins
    ≡ ("clock", ("zone", "utc") ∷ []) ∷ ("notes", ("on", "yes") ∷ []) ∷ []
unfolding save_overrides merged_overrides merge_saved merge_plugins spread
plugins-merge = refl

loading-fails : load_overrides none running ≡ running
unfolding load_overrides
loading-fails = refl
