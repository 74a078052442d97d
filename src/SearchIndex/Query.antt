-- ===== src/SearchIndex/Query.antt =====
-- The answers of the finder, the `search` of frontend/src/search-index/searchIndex.store.ts. The
-- browser's `toLowerCase`, `includes`, `trim` and the order of texts, the search of MiniSearch, which
-- gives identifiers with the terms that matched, are given; so are the taking off of leading @ signs by
-- a regular expression, the excerpt of a body, which is snippet.ts, and the parsed query.
use Prim.Native.String.{◌++◌ as string_append}
use yanta.Prelude.{
  ℕ, leb, Bool, true, false, not, ◌&&◌, ◌||◌, Option, none, some, String, str_eq, List, [], ◌∷◌,
  ◌++◌, map, length, any, filter, take, lookup, sort_by, if◌then◌else◌,
}

pub record ParsedQuery : Type 0 where
  pub text : String
  pub projects : List String
  pub tags : List String
  pub excludes : List String
  pub phrases : List String
  pub unsupported_operators : List String

pub record IndexDoc : Type 0 where
  pub id : String
  pub kind : String
  pub title : String
  pub project_alias : String
  pub body : String
  pub tags : String
  pub updated : String
  pub note_id : String

pub data FinderType : Type 0 where
  note document : FinderType

pub record FinderItem : Type 0 where
  pub key : String
  pub kind : FinderType
  pub title : String
  pub project_alias : String
  pub path : String
  pub updated : String
  pub snippets : List String
  pub match_count : ℕ
  pub note_id : Option String

pub record SearchResult : Type 0 where
  pub id : String
  pub terms : List String

abbrev pub search_limit : ℕ
search_limit = 50

abbrev pub is_empty : {A : Type 0} → List A → Bool
is_empty [] = true
is_empty (x ∷ l) = false

abbrev pub every : {A : Type 0} → (A → Bool) → List A → Bool
every p l = not (any (λ x. not (p x)) l)

-- What the browser does with texts.
pub record Texts : Type 0 where
  pub lower : String → String
  pub includes : String → String → Bool
  pub is_blank : String → Bool
  pub strip_at : String → String
  pub before : String → String → Bool

abbrev note_id_of : String → Option String
note_id_of id = if str_eq id "" then none else some id

abbrev pub values : List (String × IndexDoc) → List IndexDoc
values = map (λ e. e.1)

module _ (t : Texts) where
  abbrev pub doc_has_tag : IndexDoc → String → Bool
  doc_has_tag doc tag =
      t.includes (string_append " " (string_append (t.lower doc.tags) " "))
        (string_append " " (string_append tag " "))

  abbrev pub doc_text : IndexDoc → String
  doc_text doc = t.lower (string_append doc.title (string_append "\n" doc.body))

  -- The four conditions, each with the test that spares it.
  unfoldable pub passes_filters : ParsedQuery → IndexDoc → Bool
  passes_filters q doc =
      if not (is_empty q.projects)
        && not (any (λ p. str_eq p (t.lower (t.strip_at doc.project_alias))) q.projects)
      then false
      else if not (is_empty q.tags) && not (every (doc_has_tag doc) q.tags)
      then false
      else if not (is_empty q.phrases) || not (is_empty q.excludes)
      then if not (is_empty q.phrases)
          && not (every (λ p. t.includes (doc_text doc) (t.lower p)) q.phrases)
        then false
        else if not (is_empty q.excludes)
            && any (λ e. t.includes (doc_text doc) (t.lower e)) q.excludes
        then false
        else true
      else true

  abbrev pub newest_first : IndexDoc → IndexDoc → Bool
  newest_first a b = not (t.before a.updated b.updated)

  abbrev pub has_text : ParsedQuery → Bool
  has_text q = not (t.is_blank q.text)

  abbrev pub is_void : ParsedQuery → Bool
  is_void q =
      not (has_text q)
      && (is_empty q.phrases && not (not (is_empty q.projects) || not (is_empty q.tags)))

  module _ (build_snippet : String → List String → String) where
    unfoldable pub to_finder_item : IndexDoc → List String → FinderItem
    to_finder_item doc terms = record {
      key = doc.id;
      kind = if str_eq doc.kind "note" then note else document;
      title = doc.title;
      project_alias = doc.project_alias;
      path = doc.id;
      updated = doc.updated;
      snippets = if str_eq doc.body "" then [] else build_snippet doc.body terms ∷ [];
      match_count = length terms;
      note_id = note_id_of doc.note_id;
    }

    -- The document of a result, where it is known and passes.
    abbrev pub hit : ParsedQuery → Option IndexDoc → Option IndexDoc
    hit q none = none
    hit q (some doc) = if passes_filters q doc then some doc else none

    -- The loop goes on past a result that is no hit, and ends where a push fills the list.
    unfoldable pub collect :
        ParsedQuery
        → List (String × IndexDoc)
        → List SearchResult
        → List FinderItem
        → List FinderItem
    collect q docs [] items = items
    collect q docs (r ∷ rs) items = elim (hit q (lookup r.id docs)) [
      | none ↦ collect q docs rs items
      | some doc ↦
          (let next = items ++ (to_finder_item doc r.terms ∷ []) in
            let rest = collect q docs rs next in
            if leb search_limit (length next) then next else rest)
    ]

    unfoldable pub browse : ParsedQuery → List (String × IndexDoc) → List FinderItem
    browse q docs =
        map (λ doc. to_finder_item doc q.phrases)
          (take search_limit (sort_by newest_first (filter (passes_filters q) (values docs))))

    -- `none` is the index before the first build.
    abbrev search_in :
        Option (String → List SearchResult)
        → ParsedQuery
        → List (String × IndexDoc)
        → List FinderItem
    search_in none q docs = []
    search_in (some index) q docs =
        if is_void q
        then []
        else if has_text q
        then collect q docs (index q.text) []
        else browse q docs

    unfoldable pub search :
        Option (String → List SearchResult)
        → List (String × IndexDoc)
        → ParsedQuery
        → List FinderItem
    search index docs q = search_in index q docs
