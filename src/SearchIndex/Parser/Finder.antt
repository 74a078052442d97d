-- ===== src/SearchIndex/Parser/Finder.antt =====
-- What the finder answers to a query that is made of items: the parser of
-- frontend/src/search-index/queryParser.ts and the `search` of
-- frontend/src/search-index/searchIndex.store.ts. How units are a text is given.
use yanta.Prelude.{ℕ, Bool, true, false, Option, String, str_eq, List, [], map, any, All, ◌≡◌, ◌⊎◌}
use yanta.Snippet.{Units}
use yanta.SearchIndex.Query.{
  ParsedQuery, IndexDoc, FinderItem, SearchResult, Texts, search, doc_has_tag, doc_text,
}
use yanta.SearchIndex.Parser.{ParsedParts, strip, parse_query, joined_words}
use yanta.SearchIndex.Parser.Phrases.{Item, word, operator, project, tag, exclude, phrase}
use yanta.SearchIndex.Parser.RoundTrip.{gather, projects_of}

module _ (text_of : Units → String) where
  -- The object that `parseQuery` returns.
  unfoldable pub to_parsed_query : ParsedParts → ParsedQuery
  to_parsed_query q = record {
    text = text_of (joined_words q.words);
    projects = map text_of q.projects;
    tags = map text_of q.tags;
    excludes = map text_of q.excludes;
    phrases = map text_of q.phrases;
    unsupported_operators = map text_of q.unsupported_operators;
  }

  -- The whole `search`, from the text that was typed.
  unfoldable pub search_query :
      (ℕ → Bool)
      → (Units → Units)
      → Texts
      → (String → List String → String)
      → Option (String → List SearchResult)
      → List (String × IndexDoc)
      → Units
      → List FinderItem
  search_query is_space lower t build_snippet index docs query =
      search t build_snippet index docs (to_parsed_query (parse_query is_space lower query))

  module _ (lower : Units → Units) (t : Texts) (doc : IndexDoc) where
    -- What a single item asks of a document; a project is one of several.
    abbrev Meets : Item → Type 0
    Meets (word w) = Unit
    Meets (operator w) = Unit
    Meets (project p) = Unit
    Meets (tag n) = doc_has_tag t doc (text_of (lower (strip b'#' n))) ≡ true
    Meets (exclude e) = t.includes (doc_text t doc) (t.lower (text_of e)) ≡ false
    Meets (phrase p) = t.includes (doc_text t doc) (t.lower (text_of p)) ≡ true

    abbrev IsOfProject : List Item → Type 0
    IsOfProject is =
        (map text_of (gather (projects_of lower) is) ≡ [])
        ⊎ (any (λ p. str_eq p (t.lower (t.strip_at doc.project_alias)))
              (map text_of (gather (projects_of lower) is))
            ≡ true)

  -- An entry of the finder that shows a document with the property `P` which meets the items.
  abbrev pub Shows :
      (lower : Units → Units) (t : Texts) (P : IndexDoc → Type 0) → List Item → FinderItem → Type 0
  Shows lower t P is item =
      (doc : IndexDoc) × P doc
      × (item.key ≡ doc.id)
      × IsOfProject lower t doc is
      × All (Meets lower t doc) is
