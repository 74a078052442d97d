-- ===== src/Plugins.antt =====
-- The plugin host, frontend/src/plugins/registry.ts.  A plugin's code is not the repository's: what
-- its setup does is data of its definition, the calls that it makes of its API and how it ends.
-- Each load runs to its end before the next operation.  What plugins contribute is kept by plugin
-- id; the source `plugin:<id>` that the registries use has the same identity.
pub mod Soundness
pub mod Steps
pub mod Recovery
pub mod Examples
use yanta.Prelude.{
  ℕ, Bool, true, false, not, ◌||◌, ◌&&◌, Option, none, some, List, [], ◌∷◌, String, str_eq, ◌==◌,
  any, filter, map, lookup, insert, erase, if◌then◌else◌,
}

pub data PluginCapability : Type 0 where
  commands : PluginCapability
  sidebar : PluginCapability
  editor_extensions : PluginCapability
  editor_tiptap_extensions : PluginCapability
  editor_block_specs : PluginCapability
  editor_style_specs : PluginCapability
  editor_slash_menu : PluginCapability
  editor_tools : PluginCapability
  editor_block_actions : PluginCapability
  editor_lifecycle : PluginCapability
  settings : PluginCapability

abbrev pub capability_code : PluginCapability → ℕ
capability_code commands = 0
capability_code sidebar = 1
capability_code editor_extensions = 2
capability_code editor_tiptap_extensions = 3
capability_code editor_block_specs = 4
capability_code editor_style_specs = 5
capability_code editor_slash_menu = 6
capability_code editor_tools = 7
capability_code editor_block_actions = 8
capability_code editor_lifecycle = 9
capability_code settings = 10

-- `granted.has(capability)`
unfoldable pub is_granted : List PluginCapability → PluginCapability → Bool
is_granted granted c = any (λ g. capability_code g == capability_code c) granted

-- A call of the API by its capability, and whether the plugin catches what the call throws.
pub record ApiCall : Type 0 where
  pub capability : PluginCapability
  pub caught : Bool

-- `setup_throws` is what the setup does after its calls; `own_cleanup` is the cleanup that it
-- returns, if it returns one, by whether that throws.
pub record PluginDefinition : Type 0 where
  pub entry : String
  pub api_version : String
  pub capabilities : List PluginCapability
  pub api_calls : List ApiCall
  pub setup_throws : Bool
  pub own_cleanup : Option Bool

pub record PluginRuntimeRecord : Type 0 where
  pub is_external : Bool
  pub is_active : Bool
  pub last_error : Option String

pub record PluginHost : Type 0 where
  pub definitions : List (String × PluginDefinition)
  pub cleanups : List (String × Option Bool)
  pub runtime : List (String × PluginRuntimeRecord)
  pub contributed : List (String × List PluginCapability)

abbrev pub empty_host : PluginHost
empty_host = record { definitions = []; cleanups = []; runtime = []; contributed = [] }

-- What the setup contributes, and whether a call without its capability ends it.
unfoldable pub run_calls :
    List PluginCapability → List ApiCall → List PluginCapability → List PluginCapability × Bool
run_calls granted [] done = (done, false)
run_calls granted (c ∷ calls) done =
    let rest =
      run_calls granted calls
        (if is_granted granted c.capability then c.capability ∷ done else done) in
    if is_granted granted c.capability || c.caught then rest else (done, true)

abbrev pub is_there {ℓ} : {A : Type ℓ} → Option A → Bool
is_there none = false
is_there (some _) = true

-- `is_builtin` is `entry.startsWith("builtin:")`, `compatible` is `isAPIVersionCompatible`, and
-- `major` the backend's supported API, `none` where it cannot be had.
module _ (is_builtin : String → Bool) (compatible : String → ℕ → Bool) (major : Option ℕ) where
  abbrev pub previous : PluginDefinition → Option PluginRuntimeRecord → PluginRuntimeRecord
  previous def (some r) = r
  previous def none = record {
    is_external = not (is_builtin def.entry);
    is_active = false;
    last_error = none;
  }

  abbrev pub patched :
      String
      → (PluginRuntimeRecord → PluginRuntimeRecord)
      → Option PluginDefinition
      → PluginHost
      → PluginHost
  patched id patch none h = h
  patched id patch (some def) h = record h {
    runtime = insert id (patch (previous def (lookup id h.runtime))) h.runtime;
  }

  unfoldable pub set_runtime :
      String → (PluginRuntimeRecord → PluginRuntimeRecord) → PluginHost → PluginHost
  set_runtime id patch h = patched id patch (lookup id h.definitions) h

  abbrev pub inactive : PluginRuntimeRecord → PluginRuntimeRecord
  inactive r = record r { is_active = false }

  abbrev pub inactive_with : String → PluginRuntimeRecord → PluginRuntimeRecord
  inactive_with message r = record r { is_active = false; last_error = some message }

  unfoldable pub register_plugin : String → PluginDefinition → PluginHost → PluginHost
  register_plugin id def h =
      set_runtime id
        (λ r. record {
          is_external = not (is_builtin def.entry);
          is_active = false;
          last_error = none;
        })
        (record h { definitions = insert id def h.definitions })

  abbrev pub after_setup :
      String → PluginDefinition → List PluginCapability × Bool → PluginHost → PluginHost
  after_setup id def (done, threw) h =
      if threw || def.setup_throws
      then set_runtime id (inactive_with "setup failed")
          (record h { contributed = erase id h.contributed })
      else set_runtime id (λ r. record r { is_active = true; last_error = none })
          (record h {
            contributed = insert id done h.contributed;
            cleanups = insert id def.own_cleanup h.cleanups;
          })

  abbrev pub with_major : String → PluginDefinition → Option ℕ → PluginHost → PluginHost
  with_major id def none h =
      set_runtime id (inactive_with "Unable to resolve supported plugin API major") h
  with_major id def (some m) h =
      if compatible def.api_version m
      then after_setup id def (run_calls def.capabilities def.api_calls []) h
      else set_runtime id (inactive_with "Unsupported plugin API version") h

  abbrev pub load_found : String → Option PluginDefinition → PluginHost → PluginHost
  load_found id none h = h
  load_found id (some def) h =
      if is_there (lookup id h.cleanups)
      then h
      else if str_eq def.entry ""
      then set_runtime id (inactive_with "Sandbox policy blocks plugin entrypoint.") h
      else with_major id def major h

  unfoldable pub load_plugin : String → PluginHost → PluginHost
  load_plugin id h = load_found id (lookup id h.definitions) h

  abbrev pub throws : Option Bool → Bool
  throws none = false
  throws (some b) = b

  abbrev pub unload_found : String → Option (Option Bool) → PluginHost → PluginHost × Bool
  unload_found id (some own) h =
      let cleaned = record h { contributed = erase id h.contributed } in
      if throws own
      then (cleaned, true)
      else (set_runtime id inactive (record cleaned { cleanups = erase id h.cleanups }), false)
  unload_found id none h =
      (set_runtime id inactive (record h { contributed = erase id h.contributed }), false)

  -- The host after it, and whether the plugin's cleanup threw out of it.
  unfoldable pub unload_plugin : String → PluginHost → PluginHost × Bool
  unload_plugin id h = unload_found id (lookup id h.cleanups) h

  -- `writes` is whether the preferences can be written.
  unfoldable pub disable_plugin : Bool → String → PluginHost → PluginHost × Bool
  disable_plugin writes id h = if writes then unload_plugin id h else (h, true)

  abbrev pub recover_one : Bool → String → String → PluginHost → PluginHost × Bool
  recover_one writes reason id h =
      let (h₁, threw) = disable_plugin writes id (set_runtime id (inactive_with reason) h) in
      let (h₂, again) = unload_plugin id h₁ in
      if not threw
      then (h₁, false)
      else if again
      then (h₂, true)
      else (set_runtime id (inactive_with reason) h₂, false)

  -- The loop of `disableExternalPluginsForEditorRecovery`; a throw leaves it.
  unfoldable pub recover : Bool → String → List String → PluginHost → PluginHost × Bool
  recover writes reason [] h = (h, false)
  recover writes reason (id ∷ ids) h =
      let (h₁, threw) = recover_one writes reason id h in
      let rest = recover writes reason ids h₁ in if threw then (h₁, true) else rest
