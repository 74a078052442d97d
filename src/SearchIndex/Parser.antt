-- ===== src/SearchIndex/Parser.antt =====
-- The parser of queries, frontend/src/search-index/queryParser.ts, on UTF-16 code units. The
-- browser's `toLowerCase` and which units `\s` matches are given.
pub mod Phrases
pub mod Tokens
pub mod RoundTrip
pub mod Finder
pub mod Examples
use yanta.Prelude.{
  ℕ, zero, suc, ◌+◌, ◌==◌, ltb, Bool, true, false, ◌&&◌, ◌||◌, Option, none, some, List, [], ◌∷◌,
  ◌++◌, length, drop, if◌then◌else◌,
}
use yanta.Snippet.{Units, starts_with}

-- The lists that the loop over the tokens fills; `words` are not joined yet.
pub record ParsedParts : Type 0 where
  pub words : List Units
  pub projects : List Units
  pub tags : List Units
  pub excludes : List Units
  pub phrases : List Units
  pub unsupported_operators : List Units

-- "project:", "tag:", "title:", "body:", "AND" and "OR".
abbrev pub project_operator : Units
project_operator = b'p' ∷ b'r' ∷ b'o' ∷ b'j' ∷ b'e' ∷ b'c' ∷ b't' ∷ b':' ∷ []

abbrev pub tag_operator : Units
tag_operator = b't' ∷ b'a' ∷ b'g' ∷ b':' ∷ []

abbrev pub title_operator : Units
title_operator = b't' ∷ b'i' ∷ b't' ∷ b'l' ∷ b'e' ∷ b':' ∷ []

abbrev pub body_operator : Units
body_operator = b'b' ∷ b'o' ∷ b'd' ∷ b'y' ∷ b':' ∷ []

abbrev pub and_operator : Units
and_operator = b'A' ∷ b'N' ∷ b'D' ∷ []

abbrev pub or_operator : Units
or_operator = b'O' ∷ b'R' ∷ []

abbrev pub begins : Units → Units → Bool
begins = starts_with ◌==◌

abbrev pub same : Units → Units → Bool
same s t = begins s t && length s == length t

-- `replace(/^c+/, "")`.
unfoldable pub strip : ℕ → Units → Units
strip c [] = []
strip c (x ∷ xs) = let rest = strip c xs in if x == c then rest else x ∷ xs

-- The text up to the next quote, where there is one.
unfoldable pub until_quote : Units → Option Units
until_quote [] = none
until_quote (x ∷ xs) =
    let rest = until_quote xs in
    if x == b'"' then some [] else elim rest [ none ↦ none | some p ↦ some (x ∷ p) ]

-- A match of the pattern behind its first quote: a phrase is not empty.
unfoldable pub phrase_at : Units → Option Units
phrase_at s = elim (until_quote s) [
  | none ↦ none
  | some p ↦ elim p [ [] ↦ none | x ∷ xs ↦ some (x ∷ xs) ]
]

-- The matches from left to right; `skip` units belong to the last one.
unfoldable pub find_phrases : ℕ → Units → List Units
find_phrases skip [] = []
find_phrases (suc skip) (x ∷ xs) = find_phrases skip xs
find_phrases zero (x ∷ xs) =
    if x == b'"'
    then elim (phrase_at xs) [
      | none ↦ find_phrases 0 xs
      | some p ↦ p ∷ find_phrases (length p + 1) xs
    ]
    else find_phrases 0 xs

abbrev pub quoted : Units → Units
quoted p = b'"' ∷ (p ++ (b'"' ∷ []))

-- `remaining.replace(match[0], "")`: the first place where the match stands.
unfoldable pub remove_first : Units → Units → Units
remove_first m [] = []
remove_first m (x ∷ xs) =
    let rest = remove_first m xs in if begins m (x ∷ xs) then drop (length m) (x ∷ xs) else x ∷ rest

unfoldable pub without : List Units → Units → Units
without [] remaining = remaining
without (p ∷ ps) remaining = without ps (remove_first (quoted p) remaining)

-- The parts of `split(/\s+/)` that are not empty; `current` is the part that is being read.
abbrev pub emit : Units → List Units → List Units
emit [] ts = ts
emit (c ∷ cs) ts = (c ∷ cs) ∷ ts

unfoldable pub tokens : (ℕ → Bool) → Units → Units → List Units
tokens is_space current [] = emit current []
tokens is_space current (x ∷ xs) =
    let after = tokens is_space [] xs in
    let within = tokens is_space (current ++ (x ∷ [])) xs in
    if is_space x then emit current after else within

abbrev pub add_project : (Units → Units) → Units → ParsedParts → ParsedParts
add_project lower [] q = q
add_project lower (x ∷ v) q = record q { projects = q.projects ++ (lower (x ∷ v) ∷ []) }

abbrev pub add_tag : (Units → Units) → Units → ParsedParts → ParsedParts
add_tag lower [] q = q
add_tag lower (x ∷ v) q = record q { tags = q.tags ++ (lower (x ∷ v) ∷ []) }

abbrev pub add_word : Units → ParsedParts → ParsedParts
add_word tok q = record q { words = q.words ++ (tok ∷ []) }

abbrev pub add_unsupported : Units → ParsedParts → ParsedParts
add_unsupported tok q =
    add_word tok (record q { unsupported_operators = q.unsupported_operators ++ (tok ∷ []) })

-- The branches of the loop over the tokens.
unfoldable pub add_token : (Units → Units) → Units → ParsedParts → ParsedParts
add_token lower tok q =
    if begins project_operator (lower tok)
    then add_project lower (strip b'@' (drop 8 tok)) q
    else if begins tag_operator (lower tok)
    then add_tag lower (strip b'#' (drop 4 tok)) q
    else if begins title_operator (lower tok) || begins body_operator (lower tok)
    then add_unsupported tok q
    else if same tok and_operator || same tok or_operator
    then add_unsupported tok q
    else if begins (b'-' ∷ []) tok && ltb 1 (length tok)
    then record q { excludes = q.excludes ++ (drop 1 tok ∷ []) }
    else add_word tok q

unfoldable pub add_tokens : (Units → Units) → List Units → ParsedParts → ParsedParts
add_tokens lower [] q = q
add_tokens lower (t ∷ ts) q = add_tokens lower ts (add_token lower t q)

abbrev pub empty_query : ParsedParts
empty_query = record {
  words = [];
  projects = [];
  tags = [];
  excludes = [];
  phrases = [];
  unsupported_operators = [];
}

-- The result holds the words before they are joined.
unfoldable pub parse_query : (ℕ → Bool) → (Units → Units) → Units → ParsedParts
parse_query is_space lower query =
    let found = find_phrases 0 query in
    add_tokens lower (tokens is_space [] (without found query))
      (record empty_query { phrases = found })

-- `words.join(" ")`, the `text` of the result.
unfoldable pub joined_words : List Units → Units
joined_words [] = []
joined_words (w ∷ []) = w
joined_words (w ∷ v ∷ ws) = w ++ (b' ' ∷ joined_words (v ∷ ws))

-- The operators that the finder's warning names, where it gives one.
unfoldable pub get_finder_unsupported_warning :
    (ℕ → Bool) → (Units → Units) → Units → Option (List Units)
get_finder_unsupported_warning is_space lower query =
    elim (parse_query is_space lower query).unsupported_operators [
      | [] ↦ none
      | op ∷ ops ↦ some (op ∷ ops)
    ]
