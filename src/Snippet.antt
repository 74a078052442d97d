-- ===== src/Snippet.antt =====
-- The excerpt of a document in the finder's list, frontend/src/search-index/snippet.ts, on UTF-16
-- code units. Which units are white space and which are the same but for their case, and the lower
-- case of a text, are the browser's and are given. The escaped terms stand for themselves in the
-- pattern (`escapeRegExp`), so a match is looked for by the terms.
pub mod Escaping
pub mod Marks
pub mod Examples
use yanta.Prelude.{
  ℕ, zero, suc, ◌+◌, ◌-◌, ◌*◌, ◌==◌, leb, ltb, min, Bool, true, false, ◌&&◌, ◌||◌, Option, none,
  some, List, [], ◌∷◌, ◌++◌, map, length, take, drop, any, filter, sort_by, if◌then◌else◌,
}

-- A text, by its code units.
abbrev pub Units : Type 0
Units = List ℕ

abbrev pub radius : ℕ
radius = 70

abbrev pub head_fallback : ℕ
head_fallback = 180

-- `replace(/c/g, by)`.
unfoldable pub replace_unit : ℕ → Units → Units → Units
replace_unit c by [] = []
replace_unit c by (x ∷ xs) =
    let rest = replace_unit c by xs in if x == c then by ++ rest else x ∷ rest

-- "&amp;", "&lt;", "&gt;", "&quot;" and "&#39;".
abbrev pub amp : Units
amp = 38 ∷ 97 ∷ 109 ∷ 112 ∷ 59 ∷ []

abbrev pub lt : Units
lt = 38 ∷ 108 ∷ 116 ∷ 59 ∷ []

abbrev pub gt : Units
gt = 38 ∷ 103 ∷ 116 ∷ 59 ∷ []

abbrev pub quot : Units
quot = 38 ∷ 113 ∷ 117 ∷ 111 ∷ 116 ∷ 59 ∷ []

abbrev pub apostrophe : Units
apostrophe = 38 ∷ 35 ∷ 51 ∷ 57 ∷ 59 ∷ []

unfoldable pub escape_html : Units → Units
escape_html s =
    replace_unit 39 apostrophe
      (replace_unit 34 quot (replace_unit 62 gt (replace_unit 60 lt (replace_unit 38 amp s))))

abbrev pub starts_with : (ℕ → ℕ → Bool) → Units → Units → Bool
starts_with same [] s = true
starts_with same (x ∷ xs) [] = false
starts_with same (x ∷ xs) (y ∷ ys) = same x y && starts_with same xs ys

abbrev pub shifted : Option ℕ → Option ℕ
shifted none = none
shifted (some i) = some (suc i)

-- `indexOf`.
unfoldable pub index_of : Units → Units → Option ℕ
index_of term [] = if starts_with ◌==◌ term [] then some 0 else none
index_of term (x ∷ xs) =
    let rest = index_of term xs in if starts_with ◌==◌ term (x ∷ xs) then some 0 else shifted rest

abbrev pub nearer : Option ℕ → Option ℕ → Option ℕ
nearer i none = i
nearer none (some pos) = some pos
nearer (some i) (some pos) = if ltb i pos then some i else some pos

-- The first place of a term that is not empty, in a text of lower case.
unfoldable pub first_place : (Units → Units) → List Units → Units → Option ℕ → Option ℕ
first_place to_lower [] lower pos = pos
first_place to_lower ([] ∷ terms) lower pos = first_place to_lower terms lower pos
first_place to_lower ((x ∷ xs) ∷ terms) lower pos =
    first_place to_lower terms lower (nearer (index_of (to_lower (x ∷ xs)) lower) pos)

abbrev pub start_of : Option ℕ → ℕ
start_of none = 0
start_of (some pos) = pos - radius

abbrev pub end_of : ℕ → Option ℕ → ℕ
end_of n none = min n head_fallback
end_of n (some pos) = min n (pos + radius * 2)

abbrev pub slice : ℕ → ℕ → Units → Units
slice start end s = take (end - start) (drop start s)

-- "… " and " …".
abbrev pub prefix_of : ℕ → Units
prefix_of start = if ltb 0 start then 8230 ∷ 32 ∷ [] else []

abbrev pub suffix_of : ℕ → ℕ → Units
suffix_of end n = if ltb end n then 32 ∷ 8230 ∷ [] else []

-- A piece of the text that the pattern cuts: one unit between two matches, or a match.
pub data Piece : Type 0 where
  unmarked : ℕ → Piece
  marked : Units → Piece

-- The first of the alternatives that matches here.
abbrev pub match_here : (ℕ → ℕ → Bool) → List Units → Units → Option ℕ
match_here same [] s = none
match_here same (t ∷ ts) s =
    let rest = match_here same ts s in if starts_with same t s then some (length t) else rest

-- The matches from left to right; `skip` units belong to the last one.
unfoldable pub cut : (ℕ → ℕ → Bool) → List Units → ℕ → Units → List Piece
cut same patterns skip [] = []
cut same patterns (suc skip) (x ∷ xs) = cut same patterns skip xs
cut same patterns zero (x ∷ xs) = elim (match_here same patterns (x ∷ xs)) [
  | none ↦ unmarked x ∷ cut same patterns 0 xs
  | some n ↦ marked (take n (x ∷ xs)) ∷ cut same patterns (n - 1) xs
]

-- "<mark>" and "</mark>".
abbrev pub open_mark : Units
open_mark = 60 ∷ 109 ∷ 97 ∷ 114 ∷ 107 ∷ 62 ∷ []

abbrev pub close_mark : Units
close_mark = 60 ∷ 47 ∷ 109 ∷ 97 ∷ 114 ∷ 107 ∷ 62 ∷ []

abbrev pub shown : Piece → Units
shown (unmarked x) = x ∷ []
shown (marked m) = open_mark ++ (m ++ close_mark)

unfoldable pub joined : List Piece → Units
joined [] = []
joined (p ∷ ps) = shown p ++ joined ps

-- What the browser does with texts.
pub record Browser : Type 0 where
  pub is_space : ℕ → Bool
  pub same : ℕ → ℕ → Bool
  pub to_lower : Units → Units

-- `replace(/\s+/g, " ")`, and `trim`.
unfoldable pub collapse : (ℕ → Bool) → Bool → Units → Units
collapse is_space in_run [] = []
collapse is_space in_run (x ∷ xs) =
    let inside = collapse is_space true xs in
    let after = collapse is_space false xs in
    if is_space x then if in_run then inside else 32 ∷ inside else x ∷ after

unfoldable pub trim_start : (ℕ → Bool) → Units → Units
trim_start is_space [] = []
trim_start is_space (x ∷ xs) =
    let rest = trim_start is_space xs in if is_space x then rest else x ∷ xs

abbrev pub cons_unless : Bool → ℕ → Units → Units
cons_unless space x (y ∷ ys) = x ∷ y ∷ ys
cons_unless space x [] = if space then [] else x ∷ []

unfoldable pub trim_end : (ℕ → Bool) → Units → Units
trim_end is_space [] = []
trim_end is_space (x ∷ xs) = cons_unless (is_space x) x (trim_end is_space xs)

abbrev pub trim : (ℕ → Bool) → Units → Units
trim is_space s = trim_end is_space (trim_start is_space s)

-- The members of `new Set(terms)`, without those of less than two units, longest first.
abbrev same_text : Units → Units → Bool
same_text s t = starts_with ◌==◌ s t && length s == length t

unfoldable pub unique : List Units → List Units → List Units
unique seen [] = []
unique seen (t ∷ ts) =
    let rest = unique seen ts in
    let added = t ∷ unique (t ∷ seen) ts in if any (same_text t) seen then rest else added

abbrev pub longer_first : Units → Units → Bool
longer_first a b = leb (length b) (length a)

unfoldable pub unique_terms : Browser → List Units → List Units
unique_terms b terms =
    sort_by longer_first
      (filter (λ t. leb 2 (length t)) (unique [] (map (λ t. b.to_lower (trim b.is_space t)) terms)))

-- The pattern is left out where there are no terms; it would match nothing.
abbrev pub highlighted : (ℕ → ℕ → Bool) → List Units → Units → List Piece
highlighted same [] html = map unmarked html
highlighted same (t ∷ ts) html = cut same (map escape_html (t ∷ ts)) 0 html

abbrev pub build_from : Browser → Units → List Units → Units
build_from b [] terms = []
build_from b (c ∷ cs) terms =
    let clean = c ∷ cs in
    let pos = first_place b.to_lower terms (b.to_lower clean) none in
    let start = start_of pos in
    let end = end_of (length clean) pos in
    prefix_of start
    ++ (joined (highlighted b.same (unique_terms b terms) (escape_html (slice start end clean)))
        ++ suffix_of end (length clean))

unfoldable pub build_snippet : Browser → Units → List Units → Units
build_snippet b text terms = build_from b (trim b.is_space (collapse b.is_space false text)) terms
