-- ===== src/Blocks/Quarantine.antt =====
-- A document survives the quarantine of its unsupported blocks.
use yanta.Prelude.{
  ◌≡◌, ◌≢◌, refl, ap, true, false, Option, none, some, String, arith, Bool-cases, inl, inr,
  str_eq-ne, List, ◌∷◌,
}
use mathlib.Core.Path.{ap₂}
use yanta.Blocks.{
  Block, single, parent, Blocks, nil, cons, is_kind, is_unknown, unknown_block_type, wrap,
  sanitize_block, sanitize_unknown_blocks, restore_block, restore_unknown_blocks,
}

module _ {C : Type 0} (stringify : Block C → String) (parse : String → Option (Block C)) where
  pub record ReadsBack (b : Block C) : Type 0 where
    pub same : parse (stringify b) ≡ some b
    pub written : stringify b ≢ ""

  -- No block is a placeholder already, and each unsupported one is read back as it was written.
  unfoldable mutual
    pub Restorable : List String → Block C → Type 0
    Restorable known (single f) =
        (is_kind unknown_block_type (single f) ≡ false)
        × (is_unknown known f.kind ≡ true → ReadsBack (single f))
    Restorable known (parent f bs) =
        (is_kind unknown_block_type (parent f bs) ≡ false)
        × (is_unknown known f.kind ≡ true → ReadsBack (parent f bs))
        × AllRestorable known bs

    pub AllRestorable : List String → Blocks C → Type 0
    AllRestorable known nil = Unit
    AllRestorable known (cons b bs) = Restorable known b × AllRestorable known bs

  restore-wrap :
      (b : Block C) → ReadsBack b → restore_block stringify parse (wrap stringify parse b) ≡ b
  unfolding restore_block
  restore-wrap b r = rw (str_eq-ne (stringify b) "" r.written, r.same) refl

  mutual
    unfolding sanitize_block restore_block Restorable

    restore-sanitize :
        (known : List String) (b : Block C)
        → Restorable known b
        → restore_block stringify parse (sanitize_block stringify parse known b) ≡ b
    restore-sanitize known (single f) (h, r) = elim (Bool-cases (is_unknown known f.kind)) [
      | inl unsupported ↦ rw unsupported (restore-wrap (single f) (r unsupported))
      | inr supported ↦ rw (supported, h) refl
    ]
    restore-sanitize known (parent f bs) (h, r, k) = elim (Bool-cases (is_unknown known f.kind)) [
      | inl unsupported ↦ rw unsupported (restore-wrap (parent f bs) (r unsupported))
      | inr supported ↦ rw (supported, h) (ap (parent f) (restore-sanitize_all known bs k))
    ]

    restore-sanitize_all :
        (known : List String) (bs : Blocks C)
        → AllRestorable known bs
        → restore_unknown_blocks stringify parse (sanitize_unknown_blocks stringify parse known bs)
          ≡ bs
    restore-sanitize_all known nil h = refl
    restore-sanitize_all known (cons b bs) (h, k) =
        ap₂ cons (restore-sanitize known b h) (restore-sanitize_all known bs k)

  -- Where no block of a document is a placeholder already, and each unsupported one is written as a
  -- text that is not empty and is read back as it was: restoring the document that the editor was
  -- given, with the unsupported blocks in placeholders, gives back the document.
  pub restore-sanitize_unknown_blocks :
      (known : List String) (bs : Blocks C)
      → AllRestorable known bs
      → restore_unknown_blocks stringify parse (sanitize_unknown_blocks stringify parse known bs)
        ≡ bs
  restore-sanitize_unknown_blocks known bs h = restore-sanitize_all known bs h

-- Every block that the editor is given is of a type that it knows, is a placeholder, or has no type.
unfoldable mutual
  pub AllSupported : {C : Type 0} → List String → Block C → Type 0
  AllSupported known (single f) = is_unknown (unknown_block_type ∷ known) f.kind ≡ false
  AllSupported known (parent f bs) =
      (is_unknown (unknown_block_type ∷ known) f.kind ≡ false) × AllSupportedIn known bs

  pub AllSupportedIn : {C : Type 0} → List String → Blocks C → Type 0
  AllSupportedIn known nil = Unit
  AllSupportedIn known (cons b bs) = AllSupported known b × AllSupportedIn known bs

module _ {C : Type 0} (stringify : Block C → String) (parse : String → Option (Block C)) where
  known_is_supported :
      (known : List String) (kind : Option String)
      → is_unknown known kind ≡ false
      → is_unknown (unknown_block_type ∷ known) kind ≡ false
  known_is_supported known none h = refl
  known_is_supported known (some kind) h = ground arith

  mutual
    unfolding sanitize_block AllSupported

    sanitize-AllSupported :
        (known : List String) (b : Block C)
        → AllSupported known (sanitize_block stringify parse known b)
    sanitize-AllSupported known (single f) = elim (Bool-cases (is_unknown known f.kind)) [
      | inl unsupported ↦ rw unsupported refl
      | inr supported ↦ rw supported (known_is_supported known f.kind supported)
    ]
    sanitize-AllSupported known (parent f bs) = elim (Bool-cases (is_unknown known f.kind)) [
      | inl unsupported ↦ rw unsupported refl
      | inr supported ↦
          rw supported
            (known_is_supported known f.kind supported, sanitize_all-AllSupported known bs)
    ]

    sanitize_all-AllSupported :
        (known : List String) (bs : Blocks C)
        → AllSupportedIn known (sanitize_unknown_blocks stringify parse known bs)
    sanitize_all-AllSupported known nil = tt
    sanitize_all-AllSupported known (cons b bs) =
        (sanitize-AllSupported known b, sanitize_all-AllSupported known bs)

  -- The editor is given no block of a type that it does not know, but placeholders, at any depth.
  pub sanitize_unknown_blocks-AllSupportedIn :
      (known : List String) (bs : Blocks C)
      → AllSupportedIn known (sanitize_unknown_blocks stringify parse known bs)
  sanitize_unknown_blocks-AllSupportedIn known bs = sanitize_all-AllSupported known bs
