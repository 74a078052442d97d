-- ===== src/EditorRegistry.antt =====
-- The editor's contribution registries,
-- frontend/src/editor/extensions/registry/editorExtensionRegistry.ts. What a plugin contributes is
-- opaque to them, but for the order of a slash menu item, a natural number here. `emitChange` is
-- the step of the version; the listeners that it calls are React's.
pub mod Slots
pub mod Coherence
pub mod Snapshots
pub mod Removal
pub mod Examples
use yanta.Prelude.{
  ℕ, ◌+◌, Bool, true, false, ◌||◌, Option, none, some, List, [], ◌∷◌, ◌++◌, String, if◌then◌else◌,
  leb, insert, map, sort_by,
}
use yanta.EditorRegistry.Slots.{Slot, has, put, drop_source, drop_if_there, read_slot}

module _ {A : Type 0} where
  -- `for (const list of registry.values()) result.push(...list)`
  pub collect_lists : List (String × List A) → List A
  collect_lists [] = []
  collect_lists ((_, list) ∷ entries) = list ++ collect_lists entries

  -- `Object.assign(result, specs)`
  pub assign : List (String × A) → List (String × A) → List (String × A)
  assign result [] = result
  assign result ((k, v) ∷ specs) = assign (insert k v result) specs

  pub merge_from : List (String × A) → List (String × List (String × A)) → List (String × A)
  merge_from result [] = result
  merge_from result ((_, specs) ∷ entries) = merge_from (assign result specs) entries

  abbrev pub merge_specs : List (String × List (String × A)) → List (String × A)
  merge_specs entries = merge_from [] entries

  abbrev pub collect_values : List (String × A) → List A
  collect_values = map (λ e. e.1)

  -- `a.order ?? 0`
  abbrev pub order_or_zero : (A → Option ℕ) → A → ℕ
  order_or_zero order item = elim (order item) [ none ↦ 0 | some k ↦ k ]

  abbrev pub by_order : (A → Option ℕ) → A → A → Bool
  by_order order a b = leb (order_or_zero order a) (order_or_zero order b)

  abbrev pub collect_slash : (A → Option ℕ) → List (String × List A) → List A
  collect_slash order entries = sort_by (by_order order) (collect_lists entries)

module _ (Extension TipTap BlockSpec StyleSpec SlashItem Tool BlockAction Hooks : Type 0)
    (order : SlashItem → Option ℕ) where
  pub record Registry : Type 0 where
    pub snapshot_version : ℕ
    pub extension : Slot (List Extension) (List Extension)
    pub tiptap_extension : Slot (List TipTap) (List TipTap)
    pub block_spec : Slot (List (String × BlockSpec)) (List (String × BlockSpec))
    pub style_spec : Slot (List (String × StyleSpec)) (List (String × StyleSpec))
    pub slash_menu : Slot (List SlashItem) (List SlashItem)
    pub tool : Slot (List Tool) (List Tool)
    pub block_action : Slot (List BlockAction) (List BlockAction)
    pub lifecycle : Slot Hooks (List Hooks)

  abbrev pub emit_change : Registry → Registry
  emit_change r = record r { snapshot_version = r.snapshot_version + 1 }

  pub set_editor_extensions : String → List Extension → Registry → Registry
  set_editor_extensions source v r = emit_change (record r { extension = put source v r.extension })

  pub remove_editor_extensions : String → Registry → Registry
  remove_editor_extensions source r =
      if has source r.extension
      then emit_change (record r { extension = drop_source source r.extension })
      else r

  pub get_all_editor_extensions : Registry → List Extension × Registry
  get_all_editor_extensions r =
      let (snapshot, slot) = read_slot collect_lists r.snapshot_version r.extension in
      (snapshot, record r { extension = slot })

  pub set_editor_tiptap_extensions : String → List TipTap → Registry → Registry
  set_editor_tiptap_extensions source v r =
      emit_change (record r { tiptap_extension = put source v r.tiptap_extension })

  pub remove_editor_tiptap_extensions : String → Registry → Registry
  remove_editor_tiptap_extensions source r =
      if has source r.tiptap_extension
      then emit_change (record r { tiptap_extension = drop_source source r.tiptap_extension })
      else r

  pub get_all_editor_tiptap_extensions : Registry → List TipTap × Registry
  get_all_editor_tiptap_extensions r =
      let (snapshot, slot) = read_slot collect_lists r.snapshot_version r.tiptap_extension in
      (snapshot, record r { tiptap_extension = slot })

  pub set_editor_block_specs : String → List (String × BlockSpec) → Registry → Registry
  set_editor_block_specs source v r =
      emit_change (record r { block_spec = put source v r.block_spec })

  pub remove_editor_block_specs : String → Registry → Registry
  remove_editor_block_specs source r =
      if has source r.block_spec
      then emit_change (record r { block_spec = drop_source source r.block_spec })
      else r

  pub get_all_editor_block_specs : Registry → List (String × BlockSpec) × Registry
  get_all_editor_block_specs r =
      let (snapshot, slot) = read_slot merge_specs r.snapshot_version r.block_spec in
      (snapshot, record r { block_spec = slot })

  pub set_editor_style_specs : String → List (String × StyleSpec) → Registry → Registry
  set_editor_style_specs source v r =
      emit_change (record r { style_spec = put source v r.style_spec })

  pub remove_editor_style_specs : String → Registry → Registry
  remove_editor_style_specs source r =
      if has source r.style_spec
      then emit_change (record r { style_spec = drop_source source r.style_spec })
      else r

  pub get_all_editor_style_specs : Registry → List (String × StyleSpec) × Registry
  get_all_editor_style_specs r =
      let (snapshot, slot) = read_slot merge_specs r.snapshot_version r.style_spec in
      (snapshot, record r { style_spec = slot })

  pub set_editor_slash_menu_items : String → List SlashItem → Registry → Registry
  set_editor_slash_menu_items source v r =
      emit_change (record r { slash_menu = put source v r.slash_menu })

  pub remove_editor_slash_menu_items : String → Registry → Registry
  remove_editor_slash_menu_items source r =
      if has source r.slash_menu
      then emit_change (record r { slash_menu = drop_source source r.slash_menu })
      else r

  pub get_all_editor_slash_menu_items : Registry → List SlashItem × Registry
  get_all_editor_slash_menu_items r =
      let (snapshot, slot) = read_slot (collect_slash order) r.snapshot_version r.slash_menu in
      (snapshot, record r { slash_menu = slot })

  pub set_editor_tools : String → List Tool → Registry → Registry
  set_editor_tools source v r = emit_change (record r { tool = put source v r.tool })

  pub remove_editor_tools : String → Registry → Registry
  remove_editor_tools source r =
      if has source r.tool then emit_change (record r { tool = drop_source source r.tool }) else r

  pub get_all_editor_tools : Registry → List Tool × Registry
  get_all_editor_tools r =
      let (snapshot, slot) = read_slot collect_lists r.snapshot_version r.tool in
      (snapshot, record r { tool = slot })

  pub set_editor_block_actions : String → List BlockAction → Registry → Registry
  set_editor_block_actions source v r =
      emit_change (record r { block_action = put source v r.block_action })

  pub remove_editor_block_actions : String → Registry → Registry
  remove_editor_block_actions source r =
      if has source r.block_action
      then emit_change (record r { block_action = drop_source source r.block_action })
      else r

  pub get_all_editor_block_actions : Registry → List BlockAction × Registry
  get_all_editor_block_actions r =
      let (snapshot, slot) = read_slot collect_lists r.snapshot_version r.block_action in
      (snapshot, record r { block_action = slot })

  pub set_editor_lifecycle_hooks : String → Hooks → Registry → Registry
  set_editor_lifecycle_hooks source v r =
      emit_change (record r { lifecycle = put source v r.lifecycle })

  pub remove_editor_lifecycle_hooks : String → Registry → Registry
  remove_editor_lifecycle_hooks source r =
      if has source r.lifecycle
      then emit_change (record r { lifecycle = drop_source source r.lifecycle })
      else r

  pub get_all_editor_lifecycle_hooks : Registry → List Hooks × Registry
  get_all_editor_lifecycle_hooks r =
      let (snapshot, slot) = read_slot collect_values r.snapshot_version r.lifecycle in
      (snapshot, record r { lifecycle = slot })

  -- `removeAllEditorPluginContributions`: each registry that has the source drops it, and one change
  -- is emitted if any had it.
  abbrev pub has_any : String → Registry → Bool
  has_any source r =
      has source r.extension
      || has source r.tiptap_extension
      || has source r.block_spec
      || has source r.style_spec
      || has source r.slash_menu
      || has source r.tool
      || has source r.block_action
      || has source r.lifecycle

  abbrev pub drop_all : String → Registry → Registry
  drop_all source r = record r {
    extension = drop_if_there source r.extension;
    tiptap_extension = drop_if_there source r.tiptap_extension;
    block_spec = drop_if_there source r.block_spec;
    style_spec = drop_if_there source r.style_spec;
    slash_menu = drop_if_there source r.slash_menu;
    tool = drop_if_there source r.tool;
    block_action = drop_if_there source r.block_action;
    lifecycle = drop_if_there source r.lifecycle;
  }

  pub remove_all_editor_plugin_contributions : String → Registry → Registry
  remove_all_editor_plugin_contributions source r =
      if has_any source r then emit_change (drop_all source r) else drop_all source r
