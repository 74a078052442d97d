-- ===== src/Plugins/Examples.antt =====
-- Two external plugins; the cleanup of one throws.
use yanta.Prelude.{
  ℕ, ◌≡◌, refl, Bool, true, false, none, some, List, [], ◌∷◌, String, str_eq, ◌==◌, ◌&&◌, lookup,
}
use yanta.Plugins.{
  PluginCapability, commands, sidebar, editor_tools, ApiCall, PluginDefinition, PluginHost,
  empty_host, is_granted, run_calls, set_runtime, register_plugin, load_plugin, recover,
}
use yanta.Plugins.Steps.{Call, register, load, call, operate}
use yanta.Plugins.Recovery.{recover_stuck}

abbrev builtin : String → Bool
builtin entry = str_eq entry "builtin:clock"

abbrev version_one : String → ℕ → Bool
version_one version m = str_eq version "1.0" && m == 1

abbrev call_of : PluginCapability → ApiCall
call_of c = record { capability = c; caught = false }

abbrev stuck_plugin : PluginDefinition
stuck_plugin = record {
  entry = "stuck.mjs";
  api_version = "1.0";
  capabilities = commands ∷ [];
  api_calls = call_of commands ∷ [];
  setup_throws = false;
  own_cleanup = some true;
}

abbrev greedy_plugin : PluginDefinition
greedy_plugin = record {
  entry = "greedy.mjs";
  api_version = "1.0";
  capabilities = sidebar ∷ [];
  api_calls = call_of sidebar ∷ call_of editor_tools ∷ [];
  setup_throws = false;
  own_cleanup = none;
}

abbrev start_both : List Call
start_both =
    register "stuck" stuck_plugin
    ∷ register "greedy" greedy_plugin
    ∷ load "stuck"
    ∷ load "greedy"
    ∷ []

abbrev started : PluginHost
started = operate builtin version_one (some 1) start_both empty_host

denied_test : lookup "greedy" started.contributed ≡ none
unfolding operate call register_plugin load_plugin set_runtime run_calls is_granted
denied_test = refl

stuck_is_loaded : lookup "stuck" started.cleanups ≡ some (some true)
unfolding operate call register_plugin load_plugin set_runtime run_calls is_granted
stuck_is_loaded = refl

recover_stuck_example :
    ((recover builtin version_one (some 1) true "crash" ("stuck" ∷ "greedy" ∷ []) started).1 ≡ true)
    × ((j : String)
        → str_eq "stuck" j ≡ false
        → lookup j
            (recover builtin version_one
              (some 1)
              true
              "crash"
              ("stuck" ∷ "greedy" ∷ [])
              started).0.contributed
          ≡ lookup j started.contributed)
recover_stuck_example =
    recover_stuck builtin version_one (some 1) true "crash" "stuck" ("greedy" ∷ []) started
      stuck_is_loaded
