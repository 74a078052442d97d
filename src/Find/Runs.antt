-- ===== src/Find/Runs.antt =====
-- What is found in a document: the leftmost occurrences in each run of text, at their positions.
pub mod Positions
pub mod Search
use yanta.Prelude.{
  drop, ◌≡◌, ◌≢◌, refl, sym, ap, ◌∙◌, inl, inr, ℕ, zero, suc, ◌+◌, ◌-◌, ◌≤◌, ◌<◌, leb, Bool, true,
  false, Option, none, some, Bool-cases, List, [], ◌∷◌, ◌++◌, length, length-append, All,
  if◌then◌else◌, arith,
}
use mathlib.Core.List.{append_assoc, append-nil}
use yanta.Find.{
  FindMatch, TextSegment, Inline, text_node, atom, Textblock, or_here, segment_pos,
  map_index_to_pos, or_zero, starts_with, find_all, matches_at, Run, fold_case, run_matches, flush,
  add_segment, find_in_children, find_in_blocks, find_matches,
}
use yanta.Find.Occurrences.{Leftmost, done, next, OccursAt, find_all_lem, starts_with-length}

-- A stretch of text without an atom in it, from a position of the document on.
pub record TextRun : Type 0 where
  pub start : ℕ
  pub text : List ℕ

abbrev pub close : Option TextRun → List TextRun → List TextRun
close none runs = runs
close (some run) runs = run ∷ runs

abbrev pub extend : ℕ → List ℕ → Option TextRun → TextRun
extend p t none = record { start = p; text = t }
extend p t (some run) = record { start = run.start; text = run.text ++ t }

abbrev pub runs_from : ℕ → List Inline → Option TextRun → List TextRun
runs_from pos [] current = close current []
runs_from pos (text_node offset [] ∷ later) current = close current (runs_from pos later none)
runs_from pos (text_node offset (c ∷ t) ∷ later) current =
    runs_from pos later (some (extend (pos + 1 + offset) (c ∷ t) current))
runs_from pos (atom offset ∷ later) current = close current (runs_from pos later none)

abbrev pub runs_of : List Textblock → List TextRun
runs_of [] = []
runs_of (b ∷ blocks) = runs_from b.pos b.children none ++ runs_of blocks

-- A text node that follows another stands right behind it; `expected` is the position there.
abbrev pub AdjacentFrom : ℕ → Option ℕ → List Inline → Type 0
AdjacentFrom pos expected [] = Unit
AdjacentFrom pos none (text_node offset t ∷ later) =
    AdjacentFrom pos (some (pos + 1 + offset + length t)) later
AdjacentFrom pos (some p) (text_node offset t ∷ later) =
    (pos + 1 + offset ≡ p) × AdjacentFrom pos (some (p + length t)) later
AdjacentFrom pos expected (atom offset ∷ later) = AdjacentFrom pos none later

abbrev pub Adjacent : Textblock → Type 0
Adjacent b = AdjacentFrom b.pos none b.children

abbrev pub shifted : ℕ → ℕ → List ℕ → List FindMatch
shifted n start [] = []
shifted n start (i ∷ later) =
    record { from = start + i; to = start + (i + n) } ∷ shifted n start later

-- Lower case does not change how long a run is.
abbrev pub KeepsLength : (List ℕ → List ℕ) → Bool → TextRun → Type 0
KeepsLength lower case_sensitive run =
    length (fold_case lower case_sensitive run.text) ≡ length run.text

abbrev pub AllKeepLength : (List ℕ → List ℕ) → Bool → List TextRun → Type 0
AllKeepLength lower case_sensitive runs = All (KeepsLength lower case_sensitive) runs

module _ (lower : List ℕ → List ℕ) (case_sensitive : Bool) (d : ℕ) (needle : List ℕ) where
  -- The matches of the runs in their order, each run's being its leftmost occurrences.
  pub data InRuns : List TextRun → List FindMatch → Type 0 where
    no_runs : InRuns [] []
    one_run :
        (run : TextRun) (found : List ℕ) {runs : List TextRun} {ms : List FindMatch}
        → Leftmost (d ∷ needle) (fold_case lower case_sensitive run.text) 0 found
        → InRuns runs ms
        → InRuns (run ∷ runs) (shifted (length (d ∷ needle)) run.start found ++ ms)
