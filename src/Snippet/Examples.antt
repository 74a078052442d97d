-- ===== src/Snippet/Examples.antt =====
-- Excerpts, frontend/src/search-index/snippet.ts.
use yanta.Prelude.{◌==◌, List, [], ◌∷◌, ◌++◌, sort_by, refl, ◌≡◌}
use yanta.Snippet.{
  Units, Browser, trim_start, trim_end, collapse, first_place, index_of, escape_html, replace_unit,
  unique, unique_terms, cut, joined, open_mark, close_mark, build_snippet,
}

abbrev plain_browser : Browser
plain_browser = record { is_space = λ x. x == 32; same = ◌==◌; to_lower = λ s. s }

-- "  a<b", and the terms "a<", "b".
abbrev text : Units
text = 32 ∷ 32 ∷ 97 ∷ 60 ∷ 98 ∷ []

abbrev terms : List Units
terms = (97 ∷ 60 ∷ []) ∷ (98 ∷ []) ∷ []

-- The term "a<" is marked as "a&lt;"; "b" is too short to be marked.
marked_tag :
    build_snippet plain_browser text terms
    ≡ open_mark ++ (97 ∷ 38 ∷ 108 ∷ 116 ∷ 59 ∷ (close_mark ++ (98 ∷ [])))
unfolding build_snippet collapse trim_start trim_end first_place index_of escape_html replace_unit
    unique unique_terms sort_by cut joined
marked_tag = refl

-- In "a&b" the term "amp" is marked inside of the entity, which is then none any more.
marked_entity :
    build_snippet plain_browser (97 ∷ 38 ∷ 98 ∷ []) ((97 ∷ 109 ∷ 112 ∷ []) ∷ [])
    ≡ 97 ∷ 38 ∷ (open_mark ++ (97 ∷ 109 ∷ 112 ∷ (close_mark ++ (59 ∷ 98 ∷ []))))
unfolding build_snippet collapse trim_start trim_end first_place index_of escape_html replace_unit
    unique unique_terms sort_by cut joined
marked_entity = refl
