-- ===== src/Find/Runs/Positions.antt =====
-- The positions of a run's characters, from its segments.
use yanta.Prelude.{
  length-drop, drop, ◌≡◌, refl, sym, ap, ◌∙◌, inl, inr, ℕ, ◌+◌, ◌-◌, ◌<◌, leb, Bool, true, false,
  Option, none, some, Bool-cases, List, [], ◌∷◌, ◌++◌, length, length-append, if◌then◌else◌, arith,
}
use yanta.Find.{
  TextSegment, Inline, text_node, atom, or_here, segment_pos, map_index_to_pos, or_zero,
  starts_with, matches_at,
}
use yanta.Find.Occurrences.{starts_with-length}
use yanta.Find.Runs.{TextRun, shifted, AdjacentFrom}

or_here-if :
    (idx : ℕ) (s : TextSegment) (b : Bool) (p : ℕ) (o : Option ℕ)
    → or_here idx s (if b then some p else o) ≡ (if b then some p else or_here idx s o)
or_here-if idx s true p o = refl
or_here-if idx s false p o = refl

segment_pos-append :
    (idx : ℕ) (segments : List TextSegment) (s : TextSegment)
    → segment_pos idx (segments ++ (s ∷ [])) ≡ (
        if leb s.start_idx idx
        then some (s.base_pos + (idx - s.start_idx))
        else segment_pos idx segments)
unfolding segment_pos
segment_pos-append idx [] s = refl
segment_pos-append idx (t ∷ segments) s =
    ap (or_here idx t) (segment_pos-append idx segments s)
    ∙ or_here-if idx t (leb s.start_idx idx) (s.base_pos + (idx - s.start_idx))
        (segment_pos idx segments)

-- The segments of a run place the index `idx` of its text at its start plus `idx`.
abbrev pub Places : ℕ → List TextSegment → Type 0
Places start segments = (idx : ℕ) → map_index_to_pos idx segments ≡ start + idx

pub Places-first : (p : ℕ) → Places p (record { start_idx = 0; base_pos = p } ∷ [])
unfolding map_index_to_pos segment_pos
Places-first p idx = ground arith

pub Places-append :
    (start p n : ℕ) (segments : List TextSegment)
    → p ≡ start + n
    → Places start segments
    → Places start (segments ++ (record { start_idx = n; base_pos = p } ∷ []))
unfolding map_index_to_pos
Places-append start p n segments e h idx =
    ap or_zero (segment_pos-append idx segments (record { start_idx = n; base_pos = p }))
    ∙ ground (arith, h idx)

pub matches_at-shifted :
    (n start : ℕ) (segments : List TextSegment)
    → Places start segments
    → (found : List ℕ) → matches_at n segments found ≡ shifted n start found
unfolding matches_at
matches_at-shifted n start segments h [] = refl
matches_at-shifted n start segments h (i ∷ later) =
    rw (h i, h (i + n), matches_at-shifted n start segments h later) refl

pub too_short :
    (needle hay : List ℕ)
    → length hay < length needle
    → (j : ℕ) → starts_with needle (drop j hay) ≡ false
too_short needle hay h j = elim (Bool-cases (starts_with needle (drop j hay))) [
  | inl there ↦
      absurd (omega (arith, starts_with-length needle (drop j hay) there, length-drop j hay))
  | inr e ↦ e
]

AdjacentFrom-none :
    (pos : ℕ) (expected : Option ℕ) (children : List Inline)
    → AdjacentFrom pos expected children
    → AdjacentFrom pos none children
AdjacentFrom-none pos none children h = h
AdjacentFrom-none pos (some p) [] h = tt
AdjacentFrom-none pos (some p) (text_node offset t ∷ later) (e, h) = rw e h
AdjacentFrom-none pos (some p) (atom offset ∷ later) h = h

pub AdjacentFrom-past_empty :
    (pos offset : ℕ) (expected : Option ℕ) (later : List Inline)
    → AdjacentFrom pos expected (text_node offset [] ∷ later)
    → AdjacentFrom pos none later
AdjacentFrom-past_empty pos offset none later h =
    AdjacentFrom-none pos (some (pos + 1 + offset + 0)) later h
AdjacentFrom-past_empty pos offset (some p) later (e, h) =
    AdjacentFrom-none pos (some (p + 0)) later h

pub AdjacentFrom-longer :
    (pos : ℕ) (run : TextRun) (t : List ℕ) (later : List Inline)
    → AdjacentFrom pos (some (run.start + length run.text + length t)) later
    → AdjacentFrom pos (some (run.start + length (run.text ++ t))) later
AdjacentFrom-longer pos run t later h =
    rw (length-append run.text t, sym (add_assoc run.start (length run.text) (length t))) h
  where
    add_assoc : (a b c : ℕ) → a + b + c ≡ a + (b + c)
    add_assoc a b c = omega arith
