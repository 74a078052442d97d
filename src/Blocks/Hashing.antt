-- ===== src/Blocks/Hashing.antt =====
-- Cosmetic defaults do not change the hash of a document.
use yanta.Prelude.{
  ◌≡◌, refl, sym, ap, ◌∙◌, true, Option, none, some, String, if◌then◌else◌, List, [], ◌∷◌,
}
use mathlib.Core.Path.{ap₂}
use yanta.Blocks.{
  Block, single, parent, Blocks, nil, cons, Fields, PropValue, node, NormalizedChildren, more,
  default_prop, is_text, drop_defaults, unless_empty, normalize_props, normalize_block,
  normalize_blocks, compute_content_hash,
}

module _ {C : Type 0} where
  -- The second list has the properties of the first and some cosmetic ones at their defaults.
  pub data Filled : List (String × PropValue C) → List (String × PropValue C) → Type 0 where
    done : Filled [] []
    kept :
        (p : String × PropValue C) {props filled : List (String × PropValue C)}
        → Filled props filled
        → Filled (p ∷ props) (p ∷ filled)
    added :
        (key : String) (v : PropValue C) {props filled : List (String × PropValue C)}
        → is_text (default_prop key) v ≡ true
        → Filled props filled
        → Filled props ((key, v) ∷ filled)

  abbrev pub props_of : Option (List (String × PropValue C)) → List (String × PropValue C)
  props_of none = []
  props_of (some props) = props

  -- What the editor makes of a block from the disk, and may leave an id on it.
  pub record FieldsFilled (f g : Fields C) : Type 0 where
    pub same_kind : f.kind ≡ g.kind
    pub same_content : f.content ≡ g.content
    pub filled : Filled (props_of f.props) (props_of g.props)

  -- `bare` is a block that comes back with an empty list of children.
  mutual
    pub data Hydrated : Block C → Block C → Type 0 where
      single_filled : {f g : Fields C} → FieldsFilled f g → Hydrated (single f) (single g)
      bare : {f g : Fields C} → FieldsFilled f g → Hydrated (single f) (parent g nil)
      parent_filled :
          {f g : Fields C} {bs cs : Blocks C}
          → FieldsFilled f g
          → AllHydrated bs cs
          → Hydrated (parent f bs) (parent g cs)

    pub data AllHydrated : Blocks C → Blocks C → Type 0 where
      none_filled : AllHydrated nil nil
      one_filled :
          {b c : Block C} {bs cs : Blocks C}
          → Hydrated b c
          → AllHydrated bs cs
          → AllHydrated (cons b bs) (cons c cs)

  drop_defaults_filled :
      {props filled : List (String × PropValue C)}
      → Filled props filled
      → drop_defaults props ≡ drop_defaults filled
  unfolding drop_defaults
  drop_defaults_filled done = refl
  drop_defaults_filled (kept (key, v) r) =
      ap (λ rest. if is_text (default_prop key) v then rest else (key, v) ∷ rest)
        (drop_defaults_filled r)
  drop_defaults_filled (added key v e r) = rw e (drop_defaults_filled r)

  normalize_props_of :
      (props : Option (List (String × PropValue C)))
      → normalize_props props ≡ unless_empty (drop_defaults (props_of props))
  unfolding normalize_props drop_defaults
  normalize_props_of none = refl
  normalize_props_of (some props) = refl

  normalize_props_filled :
      (f g : Fields C) → FieldsFilled f g → normalize_props f.props ≡ normalize_props g.props
  normalize_props_filled f g h =
      normalize_props_of f.props
      ∙ ap unless_empty (drop_defaults_filled h.filled)
      ∙ sym (normalize_props_of g.props)

  node_filled :
      {f g : Fields C} {cs ds : NormalizedChildren C}
      → FieldsFilled f g
      → cs ≡ ds
      → node f.kind (normalize_props f.props) f.content cs
        ≡ node g.kind (normalize_props g.props) g.content ds
  node_filled {f} {g} h e = cc (h.same_kind, h.same_content, normalize_props_filled f g h, e)

  mutual
    unfolding normalize_block

    normalize_block_filled : {b c : Block C} → Hydrated b c → normalize_block b ≡ normalize_block c
    normalize_block_filled (single_filled h) = node_filled h refl
    normalize_block_filled (bare h) = node_filled h refl
    normalize_block_filled (parent_filled h r) = node_filled h (normalize_blocks_filled r)

    normalize_blocks_filled :
        {bs cs : Blocks C} → AllHydrated bs cs → normalize_blocks bs ≡ normalize_blocks cs
    normalize_blocks_filled none_filled = refl
    normalize_blocks_filled (one_filled h r) =
        ap₂ more (normalize_block_filled h) (normalize_blocks_filled r)

  -- A document hashes as the editor's version of it does, where that has cosmetic properties at their
  -- defaults, other ids, and empty lists of children besides.
  pub compute_content_hash_hydrated :
      (stringify : NormalizedChildren C → String) {bs cs : Blocks C}
      → AllHydrated bs cs
      → compute_content_hash stringify bs ≡ compute_content_hash stringify cs
  unfolding compute_content_hash
  compute_content_hash_hydrated stringify h = ap stringify (normalize_blocks_filled h)
