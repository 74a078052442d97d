-- ===== src/EditorRegistry/Removal.antt =====
-- Unloading a plugin: `removeAllEditorPluginContributions`.
use yanta.Prelude.{
  ℕ, ◌+◌, ◌≡◌, Option, none, String, str_eq, arith, if◌then◌else◌, lookup, lookup-erase, eq_iff,
  Bool-cases, inl, inr,
}
use yanta.EditorRegistry.Slots.{Slot, has, drop_if_there}
use yanta.EditorRegistry
use yanta.EditorRegistry.{remove_all_editor_plugin_contributions, has_any, drop_all}

lookup-drop_if_there :
    {V S : Type 0} (source j : String) (slot : Slot V S)
    → lookup j (drop_if_there source slot).entries
      ≡ (if str_eq source j then none else lookup j slot.entries)
lookup-drop_if_there source j slot = elim (Bool-cases (has source slot)) [
  | inl there ↦ rw there (lookup-erase source j slot.entries)
  | inr missing ↦ rw missing (ground (arith, eq_iff source j))
]

module _ (Extension TipTap BlockSpec StyleSpec SlashItem Tool BlockAction Hooks : Type 0)
    (order : SlashItem → Option ℕ) where
  abbrev R : Type 0
  R =
      EditorRegistry.Registry Extension TipTap BlockSpec StyleSpec SlashItem Tool BlockAction Hooks
        order

  abbrev removed : String → R → R
  removed =
      remove_all_editor_plugin_contributions Extension TipTap BlockSpec StyleSpec SlashItem Tool
        BlockAction Hooks order

  -- In no registry is anything left of the source, and what other sources have contributed stays.
  -- A change is emitted exactly if some registry had the source.
  pub record IsUnloaded (source : String) (r r' : R) : Type 0 where
    pub extension :
        (j : String)
        → lookup j r'.extension.entries
          ≡ (if str_eq source j then none else lookup j r.extension.entries)
    pub tiptap_extension :
        (j : String)
        → lookup j r'.tiptap_extension.entries
          ≡ (if str_eq source j then none else lookup j r.tiptap_extension.entries)
    pub block_spec :
        (j : String)
        → lookup j r'.block_spec.entries
          ≡ (if str_eq source j then none else lookup j r.block_spec.entries)
    pub style_spec :
        (j : String)
        → lookup j r'.style_spec.entries
          ≡ (if str_eq source j then none else lookup j r.style_spec.entries)
    pub slash_menu :
        (j : String)
        → lookup j r'.slash_menu.entries
          ≡ (if str_eq source j then none else lookup j r.slash_menu.entries)
    pub tool :
        (j : String)
        → lookup j r'.tool.entries ≡ (if str_eq source j then none else lookup j r.tool.entries)
    pub block_action :
        (j : String)
        → lookup j r'.block_action.entries
          ≡ (if str_eq source j then none else lookup j r.block_action.entries)
    pub lifecycle :
        (j : String)
        → lookup j r'.lifecycle.entries
          ≡ (if str_eq source j then none else lookup j r.lifecycle.entries)
    pub emitted : r'.snapshot_version ≡ (
        if has_any Extension TipTap BlockSpec StyleSpec SlashItem Tool BlockAction Hooks order
          source r
        then r.snapshot_version + 1
        else r.snapshot_version)

  -- Unloading a plugin removes its source from each of the eight registries, keeps what every
  -- other source has there, and emits a change exactly if some registry had the source.
  pub remove_all-IsUnloaded : (source : String) (r : R) → IsUnloaded source r (removed source r)
  unfolding remove_all_editor_plugin_contributions
  remove_all-IsUnloaded source r =
      elim (Bool-cases (
        has_any Extension TipTap BlockSpec StyleSpec SlashItem Tool BlockAction Hooks order source
          r)) [
            | inl some_there ↦ rw some_there (record {
              extension = λ j. lookup-drop_if_there source j r.extension;
              tiptap_extension = λ j. lookup-drop_if_there source j r.tiptap_extension;
              block_spec = λ j. lookup-drop_if_there source j r.block_spec;
              style_spec = λ j. lookup-drop_if_there source j r.style_spec;
              slash_menu = λ j. lookup-drop_if_there source j r.slash_menu;
              tool = λ j. lookup-drop_if_there source j r.tool;
              block_action = λ j. lookup-drop_if_there source j r.block_action;
              lifecycle = λ j. lookup-drop_if_there source j r.lifecycle;
              emitted = rw some_there;
            })
            | inr none_there ↦ rw none_there (record {
              extension = λ j. lookup-drop_if_there source j r.extension;
              tiptap_extension = λ j. lookup-drop_if_there source j r.tiptap_extension;
              block_spec = λ j. lookup-drop_if_there source j r.block_spec;
              style_spec = λ j. lookup-drop_if_there source j r.style_spec;
              slash_menu = λ j. lookup-drop_if_there source j r.slash_menu;
              tool = λ j. lookup-drop_if_there source j r.tool;
              block_action = λ j. lookup-drop_if_there source j r.block_action;
              lifecycle = λ j. lookup-drop_if_there source j r.lifecycle;
              emitted = rw none_there;
            })
          ]
