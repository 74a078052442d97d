-- ===== src/Find.antt =====
-- Finding a text in a document, frontend/src/editor/find/findMatches.ts.  A text is the list of its
-- code units.  Which text blocks a document has, in its order, is the editor's `descendants`.
pub mod Occurrences
pub mod Runs
pub mod Plugin
pub mod Examples
use yanta.Prelude.{
  drop, ℕ, zero, suc, ◌+◌, ◌-◌, ◌==◌, leb, Bool, true, false, ◌&&◌, not, Option, none, some, List,
  [], ◌∷◌, ◌++◌, length, if◌then◌else◌,
}

pub record FindMatch : Type 0 where
  pub from : ℕ
  pub to : ℕ

-- Where a text node starts in the text of its run, and in the document.
pub record TextSegment : Type 0 where
  pub start_idx : ℕ
  pub base_pos : ℕ

-- The children of a text block, each with its offset.
pub data Inline : Type 0 where
  text_node : ℕ → List ℕ → Inline
  atom : ℕ → Inline

pub record Textblock : Type 0 where
  pub pos : ℕ
  pub children : List Inline

abbrev pub or_here : ℕ → TextSegment → Option ℕ → Option ℕ
or_here idx s (some p) = some p
or_here idx s none = if leb s.start_idx idx then some (s.base_pos + (idx - s.start_idx)) else none

-- The latest segment that does not start after `idx`.
unfoldable pub segment_pos : ℕ → List TextSegment → Option ℕ
segment_pos idx [] = none
segment_pos idx (s ∷ segments) = or_here idx s (segment_pos idx segments)

abbrev pub or_zero : Option ℕ → ℕ
or_zero none = 0
or_zero (some p) = p

unfoldable pub map_index_to_pos : ℕ → List TextSegment → ℕ
map_index_to_pos idx segments = or_zero (segment_pos idx segments)

-- `startsWith` and `indexOf` of the browser's texts.
unfoldable pub starts_with : List ℕ → List ℕ → Bool
starts_with [] s = true
starts_with (c ∷ needle) [] = false
starts_with (c ∷ needle) (d ∷ s) = (c == d) && starts_with needle s

abbrev pub one_later : Option ℕ → Option ℕ
one_later none = none
one_later (some i) = some (suc i)

unfoldable pub first_index : List ℕ → List ℕ → Option ℕ
first_index needle [] = if starts_with needle [] then some 0 else none
first_index needle (c ∷ s) =
    let later = one_later (first_index needle s) in
    if starts_with needle (c ∷ s) then some 0 else later

unfoldable pub index_of : List ℕ → List ℕ → ℕ → Option ℕ
index_of needle hay from = elim (first_index needle (drop from hay)) [
  | none ↦ none
  | some i ↦ some (from + i)
]

-- The loop of `flush` from the index `from` on; `none` where the fuel runs out.
unfoldable pub occurrences : ℕ → List ℕ → List ℕ → ℕ → Option (List ℕ)
occurrences zero needle hay from = none
occurrences (suc fuel) needle hay from = elim (index_of needle hay from) [
  | none ↦ some []
  | some idx ↦ elim (occurrences fuel needle hay (idx + length needle)) [
    | none ↦ none
    | some later ↦ some (idx ∷ later)
  ]
]

-- Enough, where the needle is not empty.
unfoldable pub find_all : List ℕ → List ℕ → Option (List ℕ)
find_all needle hay = occurrences (suc (length hay)) needle hay 0

unfoldable pub matches_at : ℕ → List TextSegment → List ℕ → List FindMatch
matches_at n segments [] = []
matches_at n segments (idx ∷ later) =
    record { from = map_index_to_pos idx segments; to = map_index_to_pos (idx + n) segments }
    ∷ matches_at n segments later

-- The variables of `findMatches` while it goes through a text block.
pub record Run : Type 0 where
  pub text : List ℕ
  pub segments : List TextSegment
  pub matches : List FindMatch

abbrev pub add_segment : ℕ → ℕ → List ℕ → Run → Run
add_segment pos offset t r = record {
  text = r.text ++ t;
  segments = r.segments ++ (record { start_idx = length r.text; base_pos = pos + 1 + offset } ∷ []);
  matches = r.matches;
}

-- `lower` is the browser's `toLowerCase`.
module _ (lower : List ℕ → List ℕ) where
  abbrev pub fold_case : Bool → List ℕ → List ℕ
  fold_case case_sensitive s = if case_sensitive then s else lower s

  unfoldable pub run_matches : Bool → List ℕ → List ℕ → List TextSegment → Option (List FindMatch)
  run_matches case_sensitive needle text segments =
      if leb (length needle) (length text)
      then elim (find_all needle (fold_case case_sensitive text)) [
        | none ↦ none
        | some found ↦ some (matches_at (length needle) segments found)
      ]
      else some []

  unfoldable pub flush : Bool → List ℕ → Run → Option Run
  flush case_sensitive needle r = elim (run_matches case_sensitive needle r.text r.segments) [
    | none ↦ none
    | some found ↦ some (record { text = []; segments = []; matches = r.matches ++ found })
  ]

  unfoldable pub find_in_children : Bool → List ℕ → ℕ → List Inline → Run → Option Run
  find_in_children case_sensitive needle pos [] r = flush case_sensitive needle r
  find_in_children case_sensitive needle pos (text_node offset [] ∷ later) r =
      elim (flush case_sensitive needle r) [
        | none ↦ none
        | some flushed ↦ find_in_children case_sensitive needle pos later flushed
      ]
  find_in_children case_sensitive needle pos (text_node offset (c ∷ t) ∷ later) r =
      find_in_children case_sensitive needle pos later (add_segment pos offset (c ∷ t) r)
  find_in_children case_sensitive needle pos (atom offset ∷ later) r =
      elim (flush case_sensitive needle r) [
        | none ↦ none
        | some flushed ↦ find_in_children case_sensitive needle pos later flushed
      ]

  unfoldable pub find_in_blocks :
      Bool → List ℕ → List Textblock → List FindMatch → Option (List FindMatch)
  find_in_blocks case_sensitive needle [] found = some found
  find_in_blocks case_sensitive needle (b ∷ blocks) found =
      elim (find_in_children case_sensitive needle b.pos b.children
        (record { text = []; segments = []; matches = found })) [
          | none ↦ none
          | some r ↦ find_in_blocks case_sensitive needle blocks r.matches
        ]

  unfoldable pub find_matches : Bool → List ℕ → List Textblock → Option (List FindMatch)
  find_matches case_sensitive [] doc = some []
  find_matches case_sensitive (c ∷ query) doc =
      find_in_blocks case_sensitive (fold_case case_sensitive (c ∷ query)) doc []
