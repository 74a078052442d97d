-- ===== src/EditorRegistry/Coherence.antt =====
-- The snapshots of the registries are always up to date, whatever is set, removed and read before.
use yanta.Prelude.{ℕ, ◌+◌, Option, List, String, insert, erase, Bool-cases, inl, inr, arith}
use yanta.EditorRegistry.Slots.{
  has, IsCoherent, bump-IsCoherent, read_slot-IsCoherent, bump-drop_if_there, keep-drop_if_there,
}
use yanta.EditorRegistry
use yanta.EditorRegistry.{
  collect_lists, merge_specs, collect_slash, collect_values, remove_all_editor_plugin_contributions,
  set_editor_extensions, remove_editor_extensions, get_all_editor_extensions,
  set_editor_tiptap_extensions, remove_editor_tiptap_extensions, get_all_editor_tiptap_extensions,
  set_editor_block_specs, remove_editor_block_specs, get_all_editor_block_specs,
  set_editor_style_specs, remove_editor_style_specs, get_all_editor_style_specs,
  set_editor_slash_menu_items, remove_editor_slash_menu_items, get_all_editor_slash_menu_items,
  set_editor_tools, remove_editor_tools, get_all_editor_tools, set_editor_block_actions,
  remove_editor_block_actions, get_all_editor_block_actions, set_editor_lifecycle_hooks,
  remove_editor_lifecycle_hooks, get_all_editor_lifecycle_hooks,
}

module _ (Extension TipTap BlockSpec StyleSpec SlashItem Tool BlockAction Hooks : Type 0)
    (order : SlashItem → Option ℕ) where
  abbrev R : Type 0
  R =
      EditorRegistry.Registry Extension TipTap BlockSpec StyleSpec SlashItem Tool BlockAction Hooks
        order

  pub record Coherent (r : R) : Type 0 where
    pub extension : IsCoherent collect_lists r.snapshot_version r.extension
    pub tiptap_extension : IsCoherent collect_lists r.snapshot_version r.tiptap_extension
    pub block_spec : IsCoherent merge_specs r.snapshot_version r.block_spec
    pub style_spec : IsCoherent merge_specs r.snapshot_version r.style_spec
    pub slash_menu : IsCoherent (collect_slash order) r.snapshot_version r.slash_menu
    pub tool : IsCoherent collect_lists r.snapshot_version r.tool
    pub block_action : IsCoherent collect_lists r.snapshot_version r.block_action
    pub lifecycle : IsCoherent collect_values r.snapshot_version r.lifecycle

  -- One call of the module's functions.
  pub data Call : Type 0 where
    set_extension : String → List Extension → Call
    remove_extension : String → Call
    read_extension : Call
    set_tiptap_extension : String → List TipTap → Call
    remove_tiptap_extension : String → Call
    read_tiptap_extension : Call
    set_block_spec : String → List (String × BlockSpec) → Call
    remove_block_spec : String → Call
    read_block_spec : Call
    set_style_spec : String → List (String × StyleSpec) → Call
    remove_style_spec : String → Call
    read_style_spec : Call
    set_slash_menu : String → List SlashItem → Call
    remove_slash_menu : String → Call
    read_slash_menu : Call
    set_tool : String → List Tool → Call
    remove_tool : String → Call
    read_tool : Call
    set_block_action : String → List BlockAction → Call
    remove_block_action : String → Call
    read_block_action : Call
    set_lifecycle : String → Hooks → Call
    remove_lifecycle : String → Call
    read_lifecycle : Call
    remove_all : String → Call

  pub call : R → Call → R
  call r (set_extension source v) =
      set_editor_extensions Extension TipTap BlockSpec StyleSpec SlashItem Tool BlockAction Hooks
        order source v r
  call r (remove_extension source) =
      remove_editor_extensions Extension TipTap BlockSpec StyleSpec SlashItem Tool BlockAction Hooks
        order source r
  call r read_extension =
      (get_all_editor_extensions Extension TipTap BlockSpec StyleSpec SlashItem Tool BlockAction
        Hooks order r).1
  call r (set_tiptap_extension source v) =
      set_editor_tiptap_extensions Extension TipTap BlockSpec StyleSpec SlashItem Tool BlockAction
        Hooks order source v r
  call r (remove_tiptap_extension source) =
      remove_editor_tiptap_extensions Extension TipTap BlockSpec StyleSpec SlashItem Tool
        BlockAction Hooks order source r
  call r read_tiptap_extension =
      (get_all_editor_tiptap_extensions Extension TipTap BlockSpec StyleSpec SlashItem Tool
        BlockAction Hooks order r).1
  call r (set_block_spec source v) =
      set_editor_block_specs Extension TipTap BlockSpec StyleSpec SlashItem Tool BlockAction Hooks
        order source v r
  call r (remove_block_spec source) =
      remove_editor_block_specs Extension TipTap BlockSpec StyleSpec SlashItem Tool BlockAction
        Hooks order source r
  call r read_block_spec =
      (get_all_editor_block_specs Extension TipTap BlockSpec StyleSpec SlashItem Tool BlockAction
        Hooks order r).1
  call r (set_style_spec source v) =
      set_editor_style_specs Extension TipTap BlockSpec StyleSpec SlashItem Tool BlockAction Hooks
        order source v r
  call r (remove_style_spec source) =
      remove_editor_style_specs Extension TipTap BlockSpec StyleSpec SlashItem Tool BlockAction
        Hooks order source r
  call r read_style_spec =
      (get_all_editor_style_specs Extension TipTap BlockSpec StyleSpec SlashItem Tool BlockAction
        Hooks order r).1
  call r (set_slash_menu source v) =
      set_editor_slash_menu_items Extension TipTap BlockSpec StyleSpec SlashItem Tool BlockAction
        Hooks order source v r
  call r (remove_slash_menu source) =
      remove_editor_slash_menu_items Extension TipTap BlockSpec StyleSpec SlashItem Tool BlockAction
        Hooks order source r
  call r read_slash_menu =
      (get_all_editor_slash_menu_items Extension TipTap BlockSpec StyleSpec SlashItem Tool
        BlockAction Hooks order r).1
  call r (set_tool source v) =
      set_editor_tools Extension TipTap BlockSpec StyleSpec SlashItem Tool BlockAction Hooks order
        source v r
  call r (remove_tool source) =
      remove_editor_tools Extension TipTap BlockSpec StyleSpec SlashItem Tool BlockAction Hooks
        order source r
  call r read_tool =
      (get_all_editor_tools Extension TipTap BlockSpec StyleSpec SlashItem Tool BlockAction Hooks
        order r).1
  call r (set_block_action source v) =
      set_editor_block_actions Extension TipTap BlockSpec StyleSpec SlashItem Tool BlockAction Hooks
        order source v r
  call r (remove_block_action source) =
      remove_editor_block_actions Extension TipTap BlockSpec StyleSpec SlashItem Tool BlockAction
        Hooks order source r
  call r read_block_action =
      (get_all_editor_block_actions Extension TipTap BlockSpec StyleSpec SlashItem Tool BlockAction
        Hooks order r).1
  call r (set_lifecycle source v) =
      set_editor_lifecycle_hooks Extension TipTap BlockSpec StyleSpec SlashItem Tool BlockAction
        Hooks order source v r
  call r (remove_lifecycle source) =
      remove_editor_lifecycle_hooks Extension TipTap BlockSpec StyleSpec SlashItem Tool BlockAction
        Hooks order source r
  call r read_lifecycle =
      (get_all_editor_lifecycle_hooks Extension TipTap BlockSpec StyleSpec SlashItem Tool
        BlockAction Hooks order r).1
  call r (remove_all source) =
      remove_all_editor_plugin_contributions Extension TipTap BlockSpec StyleSpec SlashItem Tool
        BlockAction Hooks order source r

  -- The registries with other entries, at the next version.
  abbrev changed :
      R
      → List (String × List Extension)
      → List (String × List TipTap)
      → List (String × List (String × BlockSpec))
      → List (String × List (String × StyleSpec))
      → List (String × List SlashItem)
      → List (String × List Tool)
      → List (String × List BlockAction)
      → List (String × Hooks)
      → R
  changed r e_ext e_tip e_block e_style e_slash e_tool e_act e_hooks = record r {
    snapshot_version = r.snapshot_version + 1;
    extension = record r.extension { entries = e_ext };
    tiptap_extension = record r.tiptap_extension { entries = e_tip };
    block_spec = record r.block_spec { entries = e_block };
    style_spec = record r.style_spec { entries = e_style };
    slash_menu = record r.slash_menu { entries = e_slash };
    tool = record r.tool { entries = e_tool };
    block_action = record r.block_action { entries = e_act };
    lifecycle = record r.lifecycle { entries = e_hooks };
  }

  changed-Coherent :
      {r : R} (c : Coherent r) (e_ext : List (String × List Extension))
      (e_tip : List (String × List TipTap)) (e_block : List (String × List (String × BlockSpec)))
      (e_style : List (String × List (String × StyleSpec)))
      (e_slash : List (String × List SlashItem)) (e_tool : List (String × List Tool))
      (e_act : List (String × List BlockAction)) (e_hooks : List (String × Hooks))
      → Coherent (changed r e_ext e_tip e_block e_style e_slash e_tool e_act e_hooks)
  changed-Coherent c e_ext e_tip e_block e_style e_slash e_tool e_act e_hooks = record {
    extension = bump-IsCoherent c.extension e_ext;
    tiptap_extension = bump-IsCoherent c.tiptap_extension e_tip;
    block_spec = bump-IsCoherent c.block_spec e_block;
    style_spec = bump-IsCoherent c.style_spec e_style;
    slash_menu = bump-IsCoherent c.slash_menu e_slash;
    tool = bump-IsCoherent c.tool e_tool;
    block_action = bump-IsCoherent c.block_action e_act;
    lifecycle = bump-IsCoherent c.lifecycle e_hooks;
  }

  remove_all-Coherent :
      (r : R) (source : String)
      → Coherent r
      → Coherent (
          remove_all_editor_plugin_contributions Extension TipTap BlockSpec StyleSpec SlashItem Tool
            BlockAction Hooks order source r)
  unfolding remove_all_editor_plugin_contributions
  remove_all-Coherent r source c =
      elim (Bool-cases (
        EditorRegistry.has_any Extension TipTap BlockSpec StyleSpec SlashItem Tool BlockAction Hooks
          order source r)) [
            | inl some_there ↦ rw some_there (record {
              extension = bump-drop_if_there c.extension source;
              tiptap_extension = bump-drop_if_there c.tiptap_extension source;
              block_spec = bump-drop_if_there c.block_spec source;
              style_spec = bump-drop_if_there c.style_spec source;
              slash_menu = bump-drop_if_there c.slash_menu source;
              tool = bump-drop_if_there c.tool source;
              block_action = bump-drop_if_there c.block_action source;
              lifecycle = bump-drop_if_there c.lifecycle source;
            })
            | inr none_there ↦ rw none_there (record {
              extension = keep-drop_if_there c.extension source (ground arith);
              tiptap_extension = keep-drop_if_there c.tiptap_extension source (ground arith);
              block_spec = keep-drop_if_there c.block_spec source (ground arith);
              style_spec = keep-drop_if_there c.style_spec source (ground arith);
              slash_menu = keep-drop_if_there c.slash_menu source (ground arith);
              tool = keep-drop_if_there c.tool source (ground arith);
              block_action = keep-drop_if_there c.block_action source (ground arith);
              lifecycle = keep-drop_if_there c.lifecycle source (ground arith);
            })
          ]

  pub call-Coherent : (r : R) (k : Call) → Coherent r → Coherent (call r k)
  unfolding call set_editor_extensions remove_editor_extensions get_all_editor_extensions
      set_editor_tiptap_extensions remove_editor_tiptap_extensions get_all_editor_tiptap_extensions
      set_editor_block_specs remove_editor_block_specs get_all_editor_block_specs
      set_editor_style_specs remove_editor_style_specs get_all_editor_style_specs
      set_editor_slash_menu_items remove_editor_slash_menu_items get_all_editor_slash_menu_items
      set_editor_tools remove_editor_tools get_all_editor_tools set_editor_block_actions
      remove_editor_block_actions get_all_editor_block_actions set_editor_lifecycle_hooks
      remove_editor_lifecycle_hooks get_all_editor_lifecycle_hooks
  call-Coherent r (set_extension source v) c =
      changed-Coherent c (insert source v r.extension.entries) r.tiptap_extension.entries
        r.block_spec.entries r.style_spec.entries r.slash_menu.entries r.tool.entries
        r.block_action.entries r.lifecycle.entries
  call-Coherent r (remove_extension source) c = elim (Bool-cases (has source r.extension)) [
    | inl there ↦ rw there (
        changed-Coherent c (erase source r.extension.entries) r.tiptap_extension.entries
          r.block_spec.entries r.style_spec.entries r.slash_menu.entries r.tool.entries
          r.block_action.entries r.lifecycle.entries)
    | inr missing ↦ rw missing c
  ]
  call-Coherent r read_extension c = record {
    extension = read_slot-IsCoherent c.extension;
    tiptap_extension = c.tiptap_extension;
    block_spec = c.block_spec;
    style_spec = c.style_spec;
    slash_menu = c.slash_menu;
    tool = c.tool;
    block_action = c.block_action;
    lifecycle = c.lifecycle;
  }
  call-Coherent r (set_tiptap_extension source v) c =
      changed-Coherent c r.extension.entries (insert source v r.tiptap_extension.entries)
        r.block_spec.entries r.style_spec.entries r.slash_menu.entries r.tool.entries
        r.block_action.entries r.lifecycle.entries
  call-Coherent r (remove_tiptap_extension source) c =
      elim (Bool-cases (has source r.tiptap_extension)) [
        | inl there ↦ rw there (
            changed-Coherent c r.extension.entries (erase source r.tiptap_extension.entries)
              r.block_spec.entries r.style_spec.entries r.slash_menu.entries r.tool.entries
              r.block_action.entries r.lifecycle.entries)
        | inr missing ↦ rw missing c
      ]
  call-Coherent r read_tiptap_extension c = record {
    extension = c.extension;
    tiptap_extension = read_slot-IsCoherent c.tiptap_extension;
    block_spec = c.block_spec;
    style_spec = c.style_spec;
    slash_menu = c.slash_menu;
    tool = c.tool;
    block_action = c.block_action;
    lifecycle = c.lifecycle;
  }
  call-Coherent r (set_block_spec source v) c =
      changed-Coherent c r.extension.entries r.tiptap_extension.entries
        (insert source v r.block_spec.entries) r.style_spec.entries r.slash_menu.entries
        r.tool.entries r.block_action.entries r.lifecycle.entries
  call-Coherent r (remove_block_spec source) c = elim (Bool-cases (has source r.block_spec)) [
    | inl there ↦ rw there (
        changed-Coherent c r.extension.entries r.tiptap_extension.entries
          (erase source r.block_spec.entries) r.style_spec.entries r.slash_menu.entries
          r.tool.entries r.block_action.entries r.lifecycle.entries)
    | inr missing ↦ rw missing c
  ]
  call-Coherent r read_block_spec c = record {
    extension = c.extension;
    tiptap_extension = c.tiptap_extension;
    block_spec = read_slot-IsCoherent c.block_spec;
    style_spec = c.style_spec;
    slash_menu = c.slash_menu;
    tool = c.tool;
    block_action = c.block_action;
    lifecycle = c.lifecycle;
  }
  call-Coherent r (set_style_spec source v) c =
      changed-Coherent c r.extension.entries r.tiptap_extension.entries r.block_spec.entries
        (insert source v r.style_spec.entries) r.slash_menu.entries r.tool.entries
        r.block_action.entries r.lifecycle.entries
  call-Coherent r (remove_style_spec source) c = elim (Bool-cases (has source r.style_spec)) [
    | inl there ↦ rw there (
        changed-Coherent c r.extension.entries r.tiptap_extension.entries r.block_spec.entries
          (erase source r.style_spec.entries) r.slash_menu.entries r.tool.entries
          r.block_action.entries r.lifecycle.entries)
    | inr missing ↦ rw missing c
  ]
  call-Coherent r read_style_spec c = record {
    extension = c.extension;
    tiptap_extension = c.tiptap_extension;
    block_spec = c.block_spec;
    style_spec = read_slot-IsCoherent c.style_spec;
    slash_menu = c.slash_menu;
    tool = c.tool;
    block_action = c.block_action;
    lifecycle = c.lifecycle;
  }
  call-Coherent r (set_slash_menu source v) c =
      changed-Coherent c r.extension.entries r.tiptap_extension.entries r.block_spec.entries
        r.style_spec.entries (insert source v r.slash_menu.entries) r.tool.entries
        r.block_action.entries r.lifecycle.entries
  call-Coherent r (remove_slash_menu source) c = elim (Bool-cases (has source r.slash_menu)) [
    | inl there ↦ rw there (
        changed-Coherent c r.extension.entries r.tiptap_extension.entries r.block_spec.entries
          r.style_spec.entries (erase source r.slash_menu.entries) r.tool.entries
          r.block_action.entries r.lifecycle.entries)
    | inr missing ↦ rw missing c
  ]
  call-Coherent r read_slash_menu c = record {
    extension = c.extension;
    tiptap_extension = c.tiptap_extension;
    block_spec = c.block_spec;
    style_spec = c.style_spec;
    slash_menu = read_slot-IsCoherent c.slash_menu;
    tool = c.tool;
    block_action = c.block_action;
    lifecycle = c.lifecycle;
  }
  call-Coherent r (set_tool source v) c =
      changed-Coherent c r.extension.entries r.tiptap_extension.entries r.block_spec.entries
        r.style_spec.entries r.slash_menu.entries (insert source v r.tool.entries)
        r.block_action.entries r.lifecycle.entries
  call-Coherent r (remove_tool source) c = elim (Bool-cases (has source r.tool)) [
    | inl there ↦ rw there (
        changed-Coherent c r.extension.entries r.tiptap_extension.entries r.block_spec.entries
          r.style_spec.entries r.slash_menu.entries (erase source r.tool.entries)
          r.block_action.entries r.lifecycle.entries)
    | inr missing ↦ rw missing c
  ]
  call-Coherent r read_tool c = record {
    extension = c.extension;
    tiptap_extension = c.tiptap_extension;
    block_spec = c.block_spec;
    style_spec = c.style_spec;
    slash_menu = c.slash_menu;
    tool = read_slot-IsCoherent c.tool;
    block_action = c.block_action;
    lifecycle = c.lifecycle;
  }
  call-Coherent r (set_block_action source v) c =
      changed-Coherent c r.extension.entries r.tiptap_extension.entries r.block_spec.entries
        r.style_spec.entries r.slash_menu.entries r.tool.entries
        (insert source v r.block_action.entries) r.lifecycle.entries
  call-Coherent r (remove_block_action source) c = elim (Bool-cases (has source r.block_action)) [
    | inl there ↦ rw there (
        changed-Coherent c r.extension.entries r.tiptap_extension.entries r.block_spec.entries
          r.style_spec.entries r.slash_menu.entries r.tool.entries
          (erase source r.block_action.entries) r.lifecycle.entries)
    | inr missing ↦ rw missing c
  ]
  call-Coherent r read_block_action c = record {
    extension = c.extension;
    tiptap_extension = c.tiptap_extension;
    block_spec = c.block_spec;
    style_spec = c.style_spec;
    slash_menu = c.slash_menu;
    tool = c.tool;
    block_action = read_slot-IsCoherent c.block_action;
    lifecycle = c.lifecycle;
  }
  call-Coherent r (set_lifecycle source v) c =
      changed-Coherent c r.extension.entries r.tiptap_extension.entries r.block_spec.entries
        r.style_spec.entries r.slash_menu.entries r.tool.entries r.block_action.entries
        (insert source v r.lifecycle.entries)
  call-Coherent r (remove_lifecycle source) c = elim (Bool-cases (has source r.lifecycle)) [
    | inl there ↦ rw there (
        changed-Coherent c r.extension.entries r.tiptap_extension.entries r.block_spec.entries
          r.style_spec.entries r.slash_menu.entries r.tool.entries r.block_action.entries
          (erase source r.lifecycle.entries))
    | inr missing ↦ rw missing c
  ]
  call-Coherent r read_lifecycle c = record {
    extension = c.extension;
    tiptap_extension = c.tiptap_extension;
    block_spec = c.block_spec;
    style_spec = c.style_spec;
    slash_menu = c.slash_menu;
    tool = c.tool;
    block_action = c.block_action;
    lifecycle = read_slot-IsCoherent c.lifecycle;
  }
  call-Coherent r (remove_all source) c = remove_all-Coherent r source c
