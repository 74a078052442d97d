-- ===== src/Plugins/Steps.antt =====
-- Registering, loading and unloading keep the plugin host sound.
use yanta.Prelude.{ℕ, Bool, Option, List, [], ◌∷◌, String}
use yanta.Plugins.{
  PluginDefinition, PluginHost, empty_host, register_plugin, load_plugin, unload_plugin,
  disable_plugin,
}
use yanta.Plugins.Soundness.{IsSound}

pub data Call : Type 0 where
  register : (id : String) → (def : PluginDefinition) → Call
  load : (id : String) → Call
  unload : (id : String) → Call
  disable : (writes : Bool) → (id : String) → Call

pub empty_host-IsSound : IsSound empty_host
empty_host-IsSound = record { owned = λ j there. cc; known = λ j there. cc; active = λ j on. cc }

module _ (is_builtin : String → Bool) (compatible : String → ℕ → Bool) (major : Option ℕ) where
  unfoldable pub call : Call → PluginHost → PluginHost
  call (register id def) h = register_plugin is_builtin compatible major id def h
  call (load id) h = load_plugin is_builtin compatible major id h
  call (unload id) h = (unload_plugin is_builtin compatible major id h).0
  call (disable writes id) h = (disable_plugin is_builtin compatible major writes id h).0

  unfoldable pub operate : List Call → PluginHost → PluginHost
  operate [] h = h
  operate (c ∷ cs) h = operate cs (call c h)
