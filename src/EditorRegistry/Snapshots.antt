-- ===== src/EditorRegistry/Snapshots.antt =====
-- What the `getAll…` functions give out, after any calls and twice in a row.
use yanta.Prelude.{ℕ, ◌≡◌, Option, none, List, [], ◌∷◌, String}
use yanta.EditorRegistry.Slots.{Slot, IsCoherent, read_slot-current}
use yanta.EditorRegistry
use yanta.EditorRegistry.{
  collect_lists, merge_specs, collect_slash, collect_values, get_all_editor_extensions,
  get_all_editor_tiptap_extensions, get_all_editor_block_specs, get_all_editor_style_specs,
  get_all_editor_slash_menu_items, get_all_editor_tools, get_all_editor_block_actions,
  get_all_editor_lifecycle_hooks,
}
use yanta.EditorRegistry.Coherence
use yanta.EditorRegistry.Coherence.{call-Coherent}

abbrev empty_slot : {V S : Type 0} → S → Slot V S
empty_slot s = record { entries = []; cached_version = none; cached = s }

empty_slot-IsCoherent :
    {V S : Type 0} (collect : List (String × V) → S) (s : S) → IsCoherent collect 0 (empty_slot s)
empty_slot-IsCoherent collect s = record { past = λ v e. cc; current = λ e. cc }

module _ (Extension TipTap BlockSpec StyleSpec SlashItem Tool BlockAction Hooks : Type 0)
    (order : SlashItem → Option ℕ) where
  abbrev pub R : Type 0
  R =
      EditorRegistry.Registry Extension TipTap BlockSpec StyleSpec SlashItem Tool BlockAction Hooks
        order

  abbrev pub Call : Type 0
  Call = Coherence.Call Extension TipTap BlockSpec StyleSpec SlashItem Tool BlockAction Hooks order

  abbrev pub Coherent : R → Type 0
  Coherent =
      Coherence.Coherent Extension TipTap BlockSpec StyleSpec SlashItem Tool BlockAction Hooks order

  -- The variables of the module before its first call.
  abbrev pub initial : R
  initial = record {
    snapshot_version = 0;
    extension = empty_slot [];
    tiptap_extension = empty_slot [];
    block_spec = empty_slot [];
    style_spec = empty_slot [];
    slash_menu = empty_slot [];
    tool = empty_slot [];
    block_action = empty_slot [];
    lifecycle = empty_slot [];
  }

  pub run : R → List Call → R
  run r [] = r
  run r (k ∷ calls) =
      run
        (Coherence.call Extension TipTap BlockSpec StyleSpec SlashItem Tool BlockAction Hooks order
          r k)
        calls

  initial-Coherent : Coherent initial
  initial-Coherent = record {
    extension = empty_slot-IsCoherent collect_lists [];
    tiptap_extension = empty_slot-IsCoherent collect_lists [];
    block_spec = empty_slot-IsCoherent merge_specs [];
    style_spec = empty_slot-IsCoherent merge_specs [];
    slash_menu = empty_slot-IsCoherent (collect_slash order) [];
    tool = empty_slot-IsCoherent collect_lists [];
    block_action = empty_slot-IsCoherent collect_lists [];
    lifecycle = empty_slot-IsCoherent collect_values [];
  }

  pub run-Coherent : (calls : List Call) (r : R) → Coherent r → Coherent (run r calls)
  unfolding run
  run-Coherent [] r c = c
  run-Coherent (k ∷ calls) r c =
      run-Coherent calls
        (Coherence.call Extension TipTap BlockSpec StyleSpec SlashItem Tool BlockAction Hooks order
          r k)
        (call-Coherent Extension TipTap BlockSpec StyleSpec SlashItem Tool BlockAction Hooks order r
          k c)

  -- What each `getAll…` function gives out is made of the entries that its registry has now.
  abbrev pub GivesCurrent : R → Type 0
  GivesCurrent r =
      ((get_all_editor_extensions Extension TipTap BlockSpec StyleSpec SlashItem Tool BlockAction
          Hooks order r).0
        ≡ collect_lists r.extension.entries)
      × ((get_all_editor_tiptap_extensions Extension TipTap BlockSpec StyleSpec SlashItem Tool
            BlockAction Hooks order r).0
          ≡ collect_lists r.tiptap_extension.entries)
      × ((get_all_editor_block_specs Extension TipTap BlockSpec StyleSpec SlashItem Tool BlockAction
            Hooks order r).0
          ≡ merge_specs r.block_spec.entries)
      × ((get_all_editor_style_specs Extension TipTap BlockSpec StyleSpec SlashItem Tool BlockAction
            Hooks order r).0
          ≡ merge_specs r.style_spec.entries)
      × ((get_all_editor_slash_menu_items Extension TipTap BlockSpec StyleSpec SlashItem Tool
            BlockAction Hooks order r).0
          ≡ collect_slash order r.slash_menu.entries)
      × ((get_all_editor_tools Extension TipTap BlockSpec StyleSpec SlashItem Tool BlockAction Hooks
            order r).0
          ≡ collect_lists r.tool.entries)
      × ((get_all_editor_block_actions Extension TipTap BlockSpec StyleSpec SlashItem Tool
            BlockAction Hooks order r).0
          ≡ collect_lists r.block_action.entries)
      × ((get_all_editor_lifecycle_hooks Extension TipTap BlockSpec StyleSpec SlashItem Tool
            BlockAction Hooks order r).0
          ≡ collect_values r.lifecycle.entries)

  GivesCurrent-of_Coherent : (r : R) → Coherent r → GivesCurrent r
  unfolding get_all_editor_extensions get_all_editor_tiptap_extensions get_all_editor_block_specs
      get_all_editor_style_specs get_all_editor_slash_menu_items get_all_editor_tools
      get_all_editor_block_actions get_all_editor_lifecycle_hooks
  GivesCurrent-of_Coherent r c = (
    read_slot-current c.extension,
    read_slot-current c.tiptap_extension,
    read_slot-current c.block_spec,
    read_slot-current c.style_spec,
    read_slot-current c.slash_menu,
    read_slot-current c.tool,
    read_slot-current c.block_action,
    read_slot-current c.lifecycle,
  )

  -- After any calls from the start, each of the eight functions gives out a snapshot of the
  -- current entries.
  pub snapshots_current : (calls : List Call) → GivesCurrent (run initial calls)
  snapshots_current calls =
      GivesCurrent-of_Coherent (run initial calls) (run-Coherent calls initial initial-Coherent)
