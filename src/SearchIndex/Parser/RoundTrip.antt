-- ===== src/SearchIndex/Parser/RoundTrip.antt =====
-- A query that is made of items is parsed to those items,
-- frontend/src/search-index/queryParser.ts.
use mathlib.Core.List.{append_assoc, append-nil}
use yanta.Prelude.{
  ℕ, ◌≤◌, ltb, Bool, true, false, ◌&&◌, ◌||◌, Bool-cases, inl, inr, List, [], ◌∷◌, ◌++◌, length,
  All, arith, refl, sym, ap, ◌∙◌, ◌≡◌,
}
use yanta.Snippet.{Units}
use yanta.SearchIndex.Parser.{
  ParsedParts, project_operator, tag_operator, title_operator, body_operator, and_operator,
  or_operator, begins, same, strip, emit, tokens, add_project, add_tag, add_word, add_unsupported,
  add_token, add_tokens, empty_query, without, parse_query,
}
use yanta.SearchIndex.Parser.Phrases.{
  Item, word, operator, project, tag, exclude, phrase, unphrased, printed, phrases_in, IsQuotable,
  find_phrases-printed, without-printed,
}
use yanta.SearchIndex.Parser.Tokens.{
  tokens_in, tokens-left_over, is_plain, add_token-project, add_token-tag, add_token-exclude,
}

abbrev pub gather : (Item → List Units) → List Item → List Units
gather f [] = []
gather f (i ∷ is) = f i ++ gather f is

-- What each item gives to the lists of the result.
abbrev words_of : Item → List Units
words_of (word w) = w ∷ []
words_of (operator w) = w ∷ []
words_of (project p) = []
words_of (tag t) = []
words_of (exclude e) = []
words_of (phrase p) = []

abbrev operators_of : Item → List Units
operators_of (word w) = []
operators_of (operator w) = w ∷ []
operators_of (project p) = []
operators_of (tag t) = []
operators_of (exclude e) = []
operators_of (phrase p) = []

abbrev pub projects_of : (Units → Units) → Item → List Units
projects_of lower (word w) = []
projects_of lower (operator w) = []
projects_of lower (project p) = lower (strip b'@' p) ∷ []
projects_of lower (tag t) = []
projects_of lower (exclude e) = []
projects_of lower (phrase p) = []

abbrev pub tags_of : (Units → Units) → Item → List Units
tags_of lower (word w) = []
tags_of lower (operator w) = []
tags_of lower (project p) = []
tags_of lower (tag t) = lower (strip b'#' t) ∷ []
tags_of lower (exclude e) = []
tags_of lower (phrase p) = []

abbrev pub excludes_of : Item → List Units
excludes_of (word w) = []
excludes_of (operator w) = []
excludes_of (project p) = []
excludes_of (tag t) = []
excludes_of (exclude e) = e ∷ []
excludes_of (phrase p) = []

abbrev is_field_operator : (Units → Units) → Units → Bool
is_field_operator lower w = begins title_operator (lower w) || begins body_operator (lower w)

abbrev is_boolean_operator : Units → Bool
is_boolean_operator w = same w and_operator || same w or_operator

abbrev IsNoFilter : (Units → Units) → Units → Type 0
IsNoFilter lower w =
    (1 ≤ length w)
    × (begins project_operator (lower w) ≡ false)
    × (begins tag_operator (lower w) ≡ false)

-- A word is no operator and no exclusion, and no item is empty.
abbrev pub IsWritten : (Units → Units) → Item → Type 0
IsWritten lower (word w) =
    IsNoFilter lower w
    × (is_field_operator lower w ≡ false)
    × (is_boolean_operator w ≡ false)
    × ((begins (b'-' ∷ []) w && ltb 1 (length w)) ≡ false)
IsWritten lower (operator w) =
    IsNoFilter lower w × ((is_field_operator lower w || is_boolean_operator w) ≡ true)
IsWritten lower (project p) = 1 ≤ length (strip b'@' p)
IsWritten lower (tag t) = 1 ≤ length (strip b'#' t)
IsWritten lower (exclude e) = 1 ≤ length e
IsWritten lower (phrase p) = Unit

-- The query with the items' shares behind what it holds.
abbrev pub extended : (Units → Units) → List Item → ParsedParts → ParsedParts
extended lower is q = record {
  words = q.words ++ gather words_of is;
  projects = q.projects ++ gather (projects_of lower) is;
  tags = q.tags ++ gather (tags_of lower) is;
  excludes = q.excludes ++ gather excludes_of is;
  phrases = q.phrases;
  unsupported_operators = q.unsupported_operators ++ gather operators_of is;
}

emit-nonempty : (t : Units) (ts : List Units) → 1 ≤ length t → emit t ts ≡ t ∷ ts
emit-nonempty [] ts n = ground arith
emit-nonempty (x ∷ t) ts n = refl

add_project-nonempty :
    (lower : Units → Units) (v : Units) (q : ParsedParts)
    → 1 ≤ length v
    → add_project lower v q ≡ record q { projects = q.projects ++ (lower v ∷ []) }
add_project-nonempty lower [] q n = ground arith
add_project-nonempty lower (x ∷ v) q n = refl

add_tag-nonempty :
    (lower : Units → Units) (v : Units) (q : ParsedParts)
    → 1 ≤ length v
    → add_tag lower v q ≡ record q { tags = q.tags ++ (lower v ∷ []) }
add_tag-nonempty lower [] q n = ground arith
add_tag-nonempty lower (x ∷ v) q n = refl

add_token-word :
    (lower : Units → Units) (w : Units) (q : ParsedParts)
    → IsWritten lower (word w)
    → add_token lower w q ≡ add_word w q
unfolding add_token
add_token-word lower w q ((n, p, t), f, b, m) = rw (p, t, f, b, m) refl

add_token-operator :
    (lower : Units → Units) (w : Units) (q : ParsedParts)
    → IsWritten lower (operator w)
    → add_token lower w q ≡ add_unsupported w q
unfolding add_token
add_token-operator lower w q ((n, p, t), o) = elim (Bool-cases (is_field_operator lower w)) [
  | inl f ↦ rw (p, t, f) refl
  | inr f ↦ rw (p, t, f, ap (λ c. c || is_boolean_operator w) (sym f) ∙ o) refl
]

-- One more item in front: its token is the next, and the rest is gathered behind it.
add_tokens-cons :
    (lower : Units → Units) (t : Units) (ts : List Units) (q : ParsedParts)
    → 1 ≤ length t
    → add_tokens lower (emit t ts) q ≡ add_tokens lower ts (add_token lower t q)
unfolding add_tokens
add_tokens-cons lower [] ts q n = ground arith
add_tokens-cons lower (x ∷ t) ts q n = refl

module _ (lower : Units → Units)
    (keeps : (op t : Units)
      → All (λ x. is_plain x ≡ true) op
      → begins op (lower (op ++ t)) ≡ true) where
  add_tokens-tokens_in :
      (is : List Item) (q : ParsedParts)
      → All (IsWritten lower) is
      → add_tokens lower (tokens_in is) q ≡ extended lower is q
  unfolding add_tokens
  add_tokens-tokens_in [] q h = simp (append-nil) refl
  add_tokens-tokens_in (word w ∷ is) q (h, hs) =
      add_tokens-cons lower w (tokens_in is) q h.0.0
      ∙ ap (add_tokens lower (tokens_in is)) (add_token-word lower w q h)
      ∙ add_tokens-tokens_in is (add_word w q) hs
      ∙ simp (append_assoc) refl
  add_tokens-tokens_in (operator w ∷ is) q (h, hs) =
      add_tokens-cons lower w (tokens_in is) q h.0.0
      ∙ ap (add_tokens lower (tokens_in is)) (add_token-operator lower w q h)
      ∙ add_tokens-tokens_in is (add_unsupported w q) hs
      ∙ simp (append_assoc) refl
  add_tokens-tokens_in (project p ∷ is) q (h, hs) =
      ap (add_tokens lower (tokens_in is))
        (add_token-project lower keeps p q ∙ add_project-nonempty lower (strip b'@' p) q h)
      ∙ add_tokens-tokens_in is (record q { projects = q.projects ++ (lower (strip b'@' p) ∷ []) })
          hs
      ∙ simp (append_assoc) refl
  add_tokens-tokens_in (tag t ∷ is) q (h, hs) =
      ap (add_tokens lower (tokens_in is))
        (add_token-tag lower keeps t q ∙ add_tag-nonempty lower (strip b'#' t) q h)
      ∙ add_tokens-tokens_in is (record q { tags = q.tags ++ (lower (strip b'#' t) ∷ []) }) hs
      ∙ simp (append_assoc) refl
  add_tokens-tokens_in (exclude e ∷ is) q (h, hs) =
      ap (add_tokens lower (tokens_in is)) (add_token-exclude lower keeps e q h)
      ∙ add_tokens-tokens_in is (record q { excludes = q.excludes ++ (e ∷ []) }) hs
      ∙ simp (append_assoc) refl
  add_tokens-tokens_in (phrase p ∷ is) q (h, hs) = add_tokens-tokens_in is q hs

  -- A query that is printed from items, each with a space behind it, is parsed to what the items
  -- say, in their order: `parse_query` gives the words and the operators of the search page in
  -- `words`, those operators again in `unsupported_operators`, and the projects, tags, exclusions
  -- and phrases in their own lists, projects and tags in lower case and without their leading "@"
  -- and "#". The items hold no quote and, but for the phrases, no white space; a phrase is not
  -- empty, nor is what the other items keep; a word is none of the operators; the space is white
  -- space, and `lower` keeps a beginning of "-", ":" and the letters from a to z.
  pub parse_query-printed :
      (is_space : ℕ → Bool) (is : List Item)
      → is_space b' ' ≡ true
      → All IsQuotable is
      → All (λ i. All (λ x. is_space x ≡ false) (unphrased i)) is
      → All (IsWritten lower) is
      → parse_query is_space lower (printed is)
        ≡ extended lower is (record empty_query { phrases = phrases_in is })
  unfolding parse_query
  parse_query-printed is_space is e q u w =
      ap
        (λ f.
          add_tokens lower (tokens is_space [] (without f (printed is)))
            (record empty_query { phrases = f }))
        (find_phrases-printed is q)
      ∙ ap
          (λ r.
            add_tokens lower (tokens is_space [] r)
              (record empty_query { phrases = phrases_in is }))
          (without-printed is [] q tt)
      ∙ ap (λ ts. add_tokens lower ts (record empty_query { phrases = phrases_in is }))
          (tokens-left_over is_space is e u)
      ∙ add_tokens-tokens_in is (record empty_query { phrases = phrases_in is }) w
