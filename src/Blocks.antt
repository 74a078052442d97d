-- ===== src/Blocks.antt =====
-- The blocks of a document as the editor and the disk see them,
-- frontend/src/editor/utils/blockSanitize.ts and frontend/src/shared/utils/contentHash.ts.  The
-- content of a block, and the values of its properties that are no texts, are of an opaque type `C`.
pub mod Quarantine
pub mod Hashing
pub mod Examples
use yanta.Prelude.{
  Bool, true, false, not, ◌&&◌, ◌||◌, Option, none, some, List, [], ◌∷◌, String, str_eq, any,
  lookup, if◌then◌else◌,
}

pub data PropValue (C : Type 0) : Type 0 where
  text : String → PropValue C
  other : C → PropValue C

-- A block less its children.
pub record Fields (C : Type 0) : Type 0 where
  pub id : Option String
  pub kind : Option String
  pub props : Option (List (String × PropValue C))
  pub content : Option C

mutual
  -- `single` is a block without a `children` field.
  pub data Block (C : Type 0) : Type 0 where
    single : Fields C → Block C
    parent : Fields C → Blocks C → Block C

  pub data Blocks (C : Type 0) : Type 0 where
    nil : Blocks C
    cons : Block C → Blocks C → Blocks C

abbrev pub fields : {C : Type 0} → Block C → Fields C
fields (single f) = f
fields (parent f bs) = f

abbrev pub unknown_block_type : String
unknown_block_type = "unknownBlock"

abbrev pub is_kind : {C : Type 0} → String → Block C → Bool
is_kind kind b = elim (fields b).kind [ none ↦ false | some k ↦ str_eq k kind ]

-- `block.type && !knownTypes.has(block.type)`
abbrev pub is_unknown : List String → Option String → Bool
is_unknown known none = false
is_unknown known (some kind) = not (str_eq kind "") && not (any (λ k. str_eq k kind) known)

-- `stringify` and `parse` are the browser's `JSON.stringify` and `JSON.parse`, `none` where the latter
-- throws.
module _ {C : Type 0} (stringify : Block C → String) (parse : String → Option (Block C)) where
  abbrev pub or_no_kind : Option String → String
  or_no_kind none = ""
  or_no_kind (some kind) = kind

  abbrev pub wrap : Block C → Block C
  wrap b = single (record {
    id = none;
    kind = some unknown_block_type;
    props = some (
        ("originalType", text (or_no_kind (fields b).kind))
        ∷ ("originalJson", text (stringify b))
        ∷ []);
    content = none;
  })

  unfoldable mutual
    pub sanitize_block : List String → Block C → Block C
    sanitize_block known (single f) = if is_unknown known f.kind then wrap (single f) else single f
    sanitize_block known (parent f bs) =
        let inner = parent f (sanitize_unknown_blocks known bs) in
        if is_unknown known f.kind then wrap (parent f bs) else inner

    pub sanitize_unknown_blocks : List String → Blocks C → Blocks C
    sanitize_unknown_blocks known nil = nil
    sanitize_unknown_blocks known (cons b bs) =
        cons (sanitize_block known b) (sanitize_unknown_blocks known bs)

  abbrev pub original_json : Option (List (String × PropValue C)) → Option String
  original_json none = none
  original_json (some props) = elim (lookup "originalJson" props) [
    | none ↦ none
    | some (text s) ↦ some s
    | some (other c) ↦ none
  ]

  -- The block itself where nothing was stored, or it cannot be parsed.
  abbrev pub unwrap_text : Block C → Option String → Block C
  unwrap_text b none = b
  unwrap_text b (some s) =
      if str_eq s "" then b else elim (parse s) [ none ↦ b | some original ↦ original ]

  abbrev pub unwrap : Block C → Block C
  unwrap b = unwrap_text b (original_json (fields b).props)

  unfoldable mutual
    pub restore_block : Block C → Block C
    restore_block (single f) =
        if is_kind unknown_block_type (single f) then unwrap (single f) else single f
    restore_block (parent f bs) =
        let inner = parent f (restore_unknown_blocks bs) in
        if is_kind unknown_block_type (parent f bs) then unwrap (parent f bs) else inner

    pub restore_unknown_blocks : Blocks C → Blocks C
    restore_unknown_blocks nil = nil
    restore_unknown_blocks (cons b bs) = cons (restore_block b) (restore_unknown_blocks bs)

-- What the hash is computed from: `none` for what `JSON.stringify` leaves out.
mutual
  pub data Normalized (C : Type 0) : Type 0 where
    node :
        Option String
        → Option (List (String × PropValue C))
        → Option C
        → NormalizedChildren C
        → Normalized C

  -- `end` is also a block without children.
  pub data NormalizedChildren (C : Type 0) : Type 0 where
    end : NormalizedChildren C
    more : Normalized C → NormalizedChildren C → NormalizedChildren C

abbrev pub default_prop : String → Option String
default_prop key =
    if str_eq key "textColor" || str_eq key "backgroundColor"
    then some "default"
    else if str_eq key "textAlignment"
    then some "left"
    else none

abbrev pub is_text : {C : Type 0} → Option String → PropValue C → Bool
is_text none v = false
is_text (some s) (text t) = str_eq t s
is_text (some s) (other c) = false

unfoldable pub drop_defaults :
    {C : Type 0} → List (String × PropValue C) → List (String × PropValue C)
drop_defaults [] = []
drop_defaults ((key, v) ∷ props) =
    let rest = drop_defaults props in if is_text (default_prop key) v then rest else (key, v) ∷ rest

abbrev pub unless_empty :
    {C : Type 0} → List (String × PropValue C) → Option (List (String × PropValue C))
unless_empty [] = none
unless_empty (p ∷ props) = some (p ∷ props)

unfoldable pub normalize_props :
    {C : Type 0} → Option (List (String × PropValue C)) → Option (List (String × PropValue C))
normalize_props none = none
normalize_props (some props) = unless_empty (drop_defaults props)

-- No children and an empty list of children are both `end`.
unfoldable mutual
  pub normalize_block : {C : Type 0} → Block C → Normalized C
  normalize_block (single f) = node f.kind (normalize_props f.props) f.content end
  normalize_block (parent f bs) =
      node f.kind (normalize_props f.props) f.content (normalize_blocks bs)

  pub normalize_blocks : {C : Type 0} → Blocks C → NormalizedChildren C
  normalize_blocks nil = end
  normalize_blocks (cons b bs) = more (normalize_block b) (normalize_blocks bs)

unfoldable pub compute_content_hash :
    {C : Type 0} → (NormalizedChildren C → String) → Blocks C → String
compute_content_hash stringify bs = stringify (normalize_blocks bs)
