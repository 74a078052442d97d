-- ===== src/Snippet/Marks.antt =====
-- The marks of an excerpt, frontend/src/search-index/snippet.ts.
use yanta.Prelude.{ℕ, List, [], ◌∷◌, ◌++◌, All, ◌≡◌}
use yanta.Snippet.{Units, Piece, unmarked, marked, joined, slice}
use yanta.Snippet.Escaping.{entities, IsSafe}

-- The text of the pieces, without the marks.
abbrev pub bare : Piece → Units
bare (unmarked x) = x ∷ []
bare (marked m) = m

abbrev pub plain : List Piece → Units
plain [] = []
plain (p ∷ ps) = bare p ++ plain ps

-- A text with marks around pieces of an escaped excerpt of `clean`, between two safe texts.
abbrev pub IsExcerpt : Units → Units → Type 0
IsExcerpt clean out =
    (start : ℕ) × (end : ℕ) × (before : Units) × (pieces : List Piece) × (after : Units) × (out
      ≡ before ++ (joined pieces ++ after))
    × All IsSafe before
    × All IsSafe after
    × (plain pieces ≡ entities (slice start end clean))
    × All IsSafe (plain pieces)
