-- ===== src/Plugins/Recovery.antt =====
-- Unloading a plugin, and the recovery of the editor from external plugins.
use yanta.Prelude.{
  ℕ, ◌≡◌, refl, ap, Bool, true, false, Option, none, some, List, ◌∷◌, String, str_eq, lookup, erase,
  lookup-erase, ◌∙◌,
}
use yanta.Plugins.{
  PluginCapability, PluginDefinition, PluginRuntimeRecord, PluginHost, patched, set_runtime,
  inactive_with, unload_found, unload_plugin, disable_plugin, recover,
}

module _ (is_builtin : String → Bool) (compatible : String → ℕ → Bool) (major : Option ℕ) where
  patched-contributed :
      (id : String) (patch : PluginRuntimeRecord → PluginRuntimeRecord)
      (o : Option PluginDefinition) (h : PluginHost)
      → (patched is_builtin compatible major id patch o h).contributed ≡ h.contributed
  patched-contributed id patch none h = refl
  patched-contributed id patch (some def) h = refl

  patched-cleanups :
      (id : String) (patch : PluginRuntimeRecord → PluginRuntimeRecord)
      (o : Option PluginDefinition) (h : PluginHost)
      → (patched is_builtin compatible major id patch o h).cleanups ≡ h.cleanups
  patched-cleanups id patch none h = refl
  patched-cleanups id patch (some def) h = refl

  -- A host where the plugin's cleanup throws, with what the others contribute.
  record IsStuck (id : String) (cs : List (String × List PluginCapability)) (h : PluginHost)
      : Type 0 where
    stuck : lookup id h.cleanups ≡ some (some true)
    kept : (j : String) → str_eq id j ≡ false → lookup j h.contributed ≡ lookup j cs

  set_runtime-IsStuck :
      (id : String) {cs : List (String × List PluginCapability)}
      (patch : PluginRuntimeRecord → PluginRuntimeRecord) (h : PluginHost)
      → IsStuck id cs h
      → IsStuck id cs (set_runtime is_builtin compatible major id patch h)
  unfolding set_runtime
  set_runtime-IsStuck id patch h v = record {
    stuck = ap (lookup id) (patched-cleanups id patch (lookup id h.definitions) h) ∙ v.stuck;
    kept = λ j other.
        ap (lookup j) (patched-contributed id patch (lookup id h.definitions) h) ∙ v.kept j other;
  }

  cleaned : String → PluginHost → PluginHost
  cleaned id h = record h { contributed = erase id h.contributed }

  unload_plugin_stuck :
      (id : String) (h : PluginHost)
      → lookup id h.cleanups ≡ some (some true)
      → unload_plugin is_builtin compatible major id h ≡ (cleaned id h, true)
  unfolding unload_plugin cleaned
  unload_plugin_stuck id h e = ap (λ o. unload_found is_builtin compatible major id o h) e

  cleaned-IsStuck :
      (id : String) {cs : List (String × List PluginCapability)} (h : PluginHost)
      → IsStuck id cs h
      → IsStuck id cs (cleaned id h)
  unfolding cleaned
  cleaned-IsStuck id h v = record {
    stuck = v.stuck;
    kept = λ j other. lookup-erase id j h.contributed ∙ rw other (v.kept j other);
  }

  -- The recovery stops at a plugin whose own cleanup throws: it throws, and the plugins after that
  -- one keep all that they contributed, whether or not the preferences can be written.
  pub recover_stuck :
      (writes : Bool) (reason id : String) (ids : List String) (h : PluginHost)
      → lookup id h.cleanups ≡ some (some true)
      → ((recover is_builtin compatible major writes reason (id ∷ ids) h).1 ≡ true)
        × ((j : String)
            → str_eq id j ≡ false
            → lookup j
                (recover is_builtin compatible major writes reason (id ∷ ids) h).0.contributed
              ≡ lookup j h.contributed)
  unfolding recover disable_plugin
  recover_stuck true reason id ids h e =
      let patch = inactive_with is_builtin compatible major reason in
      let h₁ = set_runtime is_builtin compatible major id patch h in
      let v = set_runtime-IsStuck id patch h (record { stuck = e; kept = λ j other. refl }) in
      let w = cleaned-IsStuck id h₁ v in
      rw (unload_plugin_stuck id h₁ v.stuck, unload_plugin_stuck id (cleaned id h₁) w.stuck)
        (refl, (cleaned-IsStuck id (cleaned id h₁) w).kept)
  recover_stuck false reason id ids h e =
      let patch = inactive_with is_builtin compatible major reason in
      let h₁ = set_runtime is_builtin compatible major id patch h in
      let v = set_runtime-IsStuck id patch h (record { stuck = e; kept = λ j other. refl }) in
      rw (unload_plugin_stuck id h₁ v.stuck) (refl, (cleaned-IsStuck id h₁ v).kept)
