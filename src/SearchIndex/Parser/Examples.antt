-- ===== src/SearchIndex/Parser/Examples.antt =====
-- Queries and what they are parsed to.
use Prim.Native.Nat.{◌-◌}
use Prim.Native.String.{char_at, ◌∷◌ as string_cons, [] as empty_string}
use yanta.Prelude.{
  String, ℕ, ◌+◌, ◌==◌, leb, Bool, true, ◌&&◌, some, List, [], ◌∷◌, ◌++◌, All, arith, refl, ◌≡◌,
  if◌then◌else◌,
}
use yanta.Snippet.{Units}
use yanta.SearchIndex.Query.{search, collect, passes_filters, to_finder_item}
use yanta.SearchIndex.Examples.{plain, no_snippet, docs, found, keys_of}
use yanta.SearchIndex.Parser.Finder.{to_parsed_query, search_query}
use yanta.SearchIndex.Parser.{
  begins, tokens, strip, add_token, add_tokens, find_phrases, until_quote, phrase_at, remove_first,
  without, empty_query, parse_query, joined_words, get_finder_unsupported_warning,
}
use yanta.SearchIndex.Parser.Phrases.{
  Item, word, operator, project, tag, exclude, phrase, printed, phrases_in,
}
use yanta.SearchIndex.Parser.Tokens.{is_plain}
use yanta.SearchIndex.Parser.RoundTrip.{extended, parse_query-printed}

abbrev is_blank : ℕ → Bool
is_blank x = x == 32

abbrev lower_unit : ℕ → ℕ
lower_unit x = if leb b'A' x && leb x b'Z' then x + 32 else x

abbrev lower : Units → Units
lower [] = []
lower (x ∷ xs) = lower_unit x ∷ lower xs

lower-keeps : (op t : Units) → All (λ x. is_plain x ≡ true) op → begins op (lower (op ++ t)) ≡ true
lower-keeps [] t h = refl
lower-keeps (x ∷ op) t (h, hs) = ground (arith, h, lower-keeps op t hs)

-- Fix title:x project:@Web "a b" tag:##Old -no
abbrev items : List Item
items =
    word (b'F' ∷ b'i' ∷ b'x' ∷ [])
    ∷ operator (b't' ∷ b'i' ∷ b't' ∷ b'l' ∷ b'e' ∷ b':' ∷ b'x' ∷ [])
    ∷ project (b'@' ∷ b'W' ∷ b'e' ∷ b'b' ∷ [])
    ∷ phrase (b'a' ∷ b' ' ∷ b'b' ∷ [])
    ∷ tag (b'#' ∷ b'#' ∷ b'O' ∷ b'l' ∷ b'd' ∷ [])
    ∷ exclude (b'n' ∷ b'o' ∷ [])
    ∷ []

parse_query-printed_example :
    parse_query is_blank lower (printed items)
    ≡ extended lower items (record empty_query { phrases = phrases_in items })
unfolding strip
parse_query-printed_example =
    parse_query-printed lower lower-keeps is_blank items refl
      (
        (refl, (refl, (refl, tt))),
        (
          (refl, (refl, (refl, (refl, (refl, (refl, (refl, tt))))))),
          (
            (refl, (refl, (refl, (refl, tt)))),
            (
              ((refl, (refl, (refl, tt))), omega arith),
              ((refl, (refl, (refl, (refl, (refl, tt))))), ((refl, (refl, tt)), tt)),
            ),
          ),
        ),
      )
      (
        (refl, (refl, (refl, tt))),
        (
          (refl, (refl, (refl, (refl, (refl, (refl, (refl, tt))))))),
          (
            (
              refl,
              (
                refl,
                (refl, (refl, (refl, (refl, (refl, (refl, (refl, (refl, (refl, (refl, tt)))))))))),
              ),
            ),
            (
              tt,
              (
                (refl, (refl, (refl, (refl, (refl, (refl, (refl, (refl, (refl, tt))))))))),
                ((refl, (refl, (refl, tt))), tt),
              ),
            ),
          ),
        ),
      )
      (
        ((omega arith, refl, refl), refl, refl, refl),
        (((omega arith, refl, refl), refl), (omega arith, (tt, (omega arith, (omega arith, tt))))),
      )

-- The lists of that query, written out.
items_tags : (parse_query is_blank lower (printed items)).tags ≡ (b'o' ∷ b'l' ∷ b'd' ∷ []) ∷ []
unfolding parse_query find_phrases phrase_at until_quote without remove_first tokens add_tokens
    add_token strip
items_tags = refl

-- -"a b": the phrase is required, and "-" is searched as a word.
minus_phrase :
    parse_query is_blank lower (b'-' ∷ b'"' ∷ b'a' ∷ b' ' ∷ b'b' ∷ b'"' ∷ [])
    ≡ record empty_query { words = (b'-' ∷ []) ∷ []; phrases = (b'a' ∷ b' ' ∷ b'b' ∷ []) ∷ [] }
unfolding parse_query find_phrases phrase_at until_quote without remove_first tokens add_tokens
    add_token strip
minus_phrase = refl

-- a"b"c: what stands before and behind the phrase becomes one word.
joined_neighbours :
    parse_query is_blank lower (b'a' ∷ b'"' ∷ b'b' ∷ b'"' ∷ b'c' ∷ [])
    ≡ record empty_query { words = (b'a' ∷ b'c' ∷ []) ∷ []; phrases = (b'b' ∷ []) ∷ [] }
unfolding parse_query find_phrases phrase_at until_quote without remove_first tokens add_tokens
    add_token strip
joined_neighbours = refl

-- "tag:" alone gives nothing, "-" alone is a word, and a quote that is not closed stays.
lone_tag :
    parse_query is_blank lower (b't' ∷ b'a' ∷ b'g' ∷ b':' ∷ b' ' ∷ b'-' ∷ b' ' ∷ b'"' ∷ b'a' ∷ [])
    ≡ record empty_query { words = (b'-' ∷ []) ∷ (b'"' ∷ b'a' ∷ []) ∷ [] }
unfolding parse_query find_phrases phrase_at until_quote without remove_first tokens add_tokens
    add_token strip
lone_tag = refl

-- The finder warns of "OR", not of "or".
warning_or :
    get_finder_unsupported_warning is_blank lower
      (b'a' ∷ b' ' ∷ b'O' ∷ b'R' ∷ b' ' ∷ b'o' ∷ b'r' ∷ [])
    ≡ some ((b'O' ∷ b'R' ∷ []) ∷ [])
unfolding get_finder_unsupported_warning parse_query find_phrases phrase_at until_quote without
    remove_first tokens add_tokens add_token strip
warning_or = refl

two_words : joined_words ((b'a' ∷ []) ∷ (b'b' ∷ []) ∷ []) ≡ b'a' ∷ b' ' ∷ b'b' ∷ []
unfolding joined_words
two_words = refl

-- The letters of the texts below.
abbrev text_of : Units → String
text_of [] = empty_string
text_of (x ∷ xs) = string_cons (char_at "abcdefghijklmnopqrstuvwxyz" (x - 97)) (text_of xs)

-- tea project:@work
abbrev tea_at_work : List Item
tea_at_work = word (b't' ∷ b'e' ∷ b'a' ∷ []) ∷ project (b'@' ∷ b'w' ∷ b'o' ∷ b'r' ∷ b'k' ∷ []) ∷ []

tea_keys :
    keys_of
      (search_query text_of is_blank lower plain no_snippet (some found) docs (printed tea_at_work))
    ≡ "a" ∷ []
unfolding search_query to_parsed_query joined_words search collect passes_filters to_finder_item
    parse_query find_phrases phrase_at until_quote without remove_first tokens add_tokens add_token
    strip
tea_keys = refl
