-- ===== src/SearchIndex/Examples.antt =====
-- The finder at work, frontend/src/search-index/searchIndex.store.ts, with a browser whose texts are
-- compared as they are.
use yanta.Prelude.{
  ◌+◌, ◌≤◌, true, false, ◌&&◌, some, String, str_eq, List, [], ◌∷◌, map, length, take, All, sort_by,
  arith, eq_iff, refl, ◌≡◌, ◌⊎◌, inl, inr,
}
use yanta.SearchIndex.{
  building, ready, build, schedule_rebuild, exported, Event, change, debounced, build_call,
  export_done, step, run, unbuilt,
}
use yanta.SearchIndex.Fresh.{settle, run-settle}
use yanta.SearchIndex.Query.{
  ParsedQuery, IndexDoc, FinderItem, SearchResult, Texts, search_limit, passes_filters, search,
  collect, browse, to_finder_item,
}
use yanta.SearchIndex.Answers.{hits, search-hits}
use yanta.SearchIndex.Filters.{IsAnswer, search-AreAnswers}

abbrev pub plain : Texts
plain = record {
  lower = λ s. s;
  includes = str_eq;
  is_blank = λ s. str_eq s "";
  strip_at = λ s. s;
  before = λ a b. str_eq a "old" && str_eq b "new";
}

abbrev pub no_snippet : String → List String → String
no_snippet body terms = body

abbrev doc : String → String → String → String → IndexDoc
doc id project updated note = record {
  id = id;
  kind = "document";
  title = id;
  project_alias = project;
  body = "";
  tags = "";
  updated = updated;
  note_id = note;
}

abbrev pub docs : List (String × IndexDoc)
docs =
    ("a", doc "a" "work" "old" "")
    ∷ ("b", doc "b" "home" "new" "")
    ∷ ("c", doc "c" "work" "new" "")
    ∷ []

abbrev query : String → ParsedQuery
query text = record {
  text = text;
  projects = "work" ∷ [];
  tags = [];
  excludes = [];
  phrases = [];
  unsupported_operators = [];
}

abbrev pub found : String → List SearchResult
found text =
    record { id = "b"; terms = text ∷ [] }
    ∷ record { id = "gone"; terms = text ∷ [] }
    ∷ record { id = "a"; terms = text ∷ [] }
    ∷ []

search-hits_example :
    search plain no_snippet (some found) docs (query "tea")
    ≡ take search_limit (hits plain no_snippet (query "tea") docs (found "tea"))
search-hits_example =
    search-hits plain no_snippet (query "tea") docs found (ground (arith, eq_iff "tea" ""))

abbrev pub IsNamed : IndexDoc → Type 0
IsNamed d = (d.id ≡ "a") ⊎ ((d.id ≡ "b") ⊎ (d.id ≡ "c"))

search-AreAnswers_example :
    All
      (IsAnswer plain no_snippet (query "tea") docs IsNamed)
      (search plain no_snippet (some found) docs (query "tea"))
    × (length (search plain no_snippet (some found) docs (query "tea")) ≤ search_limit)
search-AreAnswers_example =
    search-AreAnswers plain no_snippet (query "tea") docs IsNamed found
      (inl refl, (inr (inl refl), (inr (inr refl), tt)))

abbrev pub keys_of : List FinderItem → List String
keys_of = map (λ item. item.key)

ranked : keys_of (search plain no_snippet (some found) docs (query "tea")) ≡ "a" ∷ []
unfolding search collect passes_filters to_finder_item
ranked = refl

browsed : keys_of (search plain no_snippet (some found) docs (query "")) ≡ "c" ∷ "a" ∷ []
unfolding search browse passes_filters to_finder_item sort_by
browsed = refl

abbrev started : List Event
started = build_call ∷ change ∷ debounced ∷ []

run-settle_example :
    ((run settle unbuilt).status ≡ ready)
    × ((run settle unbuilt).indexed ≡ some (unbuilt.vault + 1))
    × ((run settle unbuilt).timer ≡ false)
run-settle_example = run-settle unbuilt

-- A change while a build runs is not in that build's index; the build after it has it.
coalesced :
    ((run (build_call ∷ change ∷ debounced ∷ export_done true ∷ []) unbuilt).indexed ≡ some 0)
    × ((run (build_call ∷ change ∷ debounced ∷ export_done true ∷ []) unbuilt).status ≡ building)
    × ((run
          (build_call ∷ change ∷ debounced ∷ export_done true ∷ export_done true ∷ [])
          unbuilt).indexed
        ≡ some 1)
unfolding run step build schedule_rebuild exported
coalesced = (refl, refl, refl)
