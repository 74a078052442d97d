-- ===== src/EditorRegistry/Slots.antt =====
-- One contribution registry of frontend/src/editor/extensions/registry/editorExtensionRegistry.ts:
-- a map from sources, with the snapshot that its `getAll…` function keeps and the version at which
-- it was taken. A version of -1, before the first snapshot, is `none`.
use yanta.Prelude.{
  ℕ, ◌+◌, ◌≤◌, ◌≡◌, refl, Bool, true, false, Option, none, some, List, String, ◌==◌, if◌then◌else◌,
  lookup, insert, erase, arith, Bool-cases, inl, inr,
}

pub record Slot (V S : Type 0) : Type 0 where
  pub entries : List (String × V)
  pub cached_version : Option ℕ
  pub cached : S

abbrev pub is_at : Option ℕ → ℕ → Bool
is_at none version = false
is_at (some v) version = v == version

abbrev pub is_there : {V : Type 0} → Option V → Bool
is_there none = false
is_there (some _) = true

is_at-eq : (o : Option ℕ) (version : ℕ) → is_at o version ≡ true → o ≡ some version
is_at-eq none version h = cc
is_at-eq (some v) version h = ground arith

module _ {V S : Type 0} where
  -- `registry.has(source)`
  abbrev pub has : String → Slot V S → Bool
  has source slot = is_there (lookup source slot.entries)

  abbrev pub put : String → V → Slot V S → Slot V S
  put source v slot = record slot { entries = insert source v slot.entries }

  abbrev pub drop_source : String → Slot V S → Slot V S
  drop_source source slot = record slot { entries = erase source slot.entries }

  -- The part of `removeAllEditorPluginContributions` for one registry.
  abbrev pub drop_if_there : String → Slot V S → Slot V S
  drop_if_there source slot = if has source slot then drop_source source slot else slot

  -- The body of a `getAll…` function, where `collect` makes the snapshot.
  pub read_slot : (List (String × V) → S) → ℕ → Slot V S → S × Slot V S
  read_slot collect version slot =
      if is_at slot.cached_version version then (slot.cached, slot) else (
        collect slot.entries,
        record slot { cached_version = some version; cached = collect slot.entries },
      )

  -- The snapshot is not of a later version, and one of the current version is up to date.
  pub record IsCoherent (collect : List (String × V) → S) (version : ℕ) (slot : Slot V S)
      : Type 0 where
    pub past : (v : ℕ) → slot.cached_version ≡ some v → v ≤ version
    pub current : slot.cached_version ≡ some version → slot.cached ≡ collect slot.entries

  module _ {collect : List (String × V) → S} {version : ℕ} {slot : Slot V S}
      (c : IsCoherent collect version slot) where
    -- At the next version every snapshot is out of date, whatever the entries are then.
    pub bump-IsCoherent :
        (entries : List (String × V))
        → IsCoherent collect (version + 1) (record slot { entries = entries })
    bump-IsCoherent entries = record {
      past = λ v e. omega (arith, c.past v e);
      current = λ e. absurd (omega (arith, c.past (version + 1) e));
    }

    pub read_slot-IsCoherent : IsCoherent collect version (read_slot collect version slot).1
    unfolding read_slot
    read_slot-IsCoherent = elim (Bool-cases (is_at slot.cached_version version)) [
      | inl fresh ↦ rw fresh c
      | inr stale ↦ rw stale (record { past = λ v e. ground arith; current = λ e. refl })
    ]

    -- The snapshot that is given out is made of the current entries.
    pub read_slot-current : (read_slot collect version slot).0 ≡ collect slot.entries
    unfolding read_slot
    read_slot-current = elim (Bool-cases (is_at slot.cached_version version)) [
      | inl fresh ↦ rw fresh (c.current (is_at-eq slot.cached_version version fresh))
      | inr stale ↦ rw stale
    ]

    -- A second reading gives the same snapshot and changes nothing.
    pub read_slot-again :
        read_slot collect version (read_slot collect version slot).1
        ≡ read_slot collect version slot
    unfolding read_slot
    read_slot-again = elim (Bool-cases (is_at slot.cached_version version)) [
      | inl fresh ↦ rw (fresh, fresh)
      | inr stale ↦ rw stale (ground arith)
    ]

    pub bump-drop_if_there :
        (source : String) → IsCoherent collect (version + 1) (drop_if_there source slot)
    bump-drop_if_there source = elim (Bool-cases (has source slot)) [
      | inl there ↦ rw there (bump-IsCoherent (erase source slot.entries))
      | inr missing ↦ rw missing (bump-IsCoherent slot.entries)
    ]

    pub keep-drop_if_there :
        (source : String)
        → has source slot ≡ false
        → IsCoherent collect version (drop_if_there source slot)
    keep-drop_if_there source missing = rw missing c
