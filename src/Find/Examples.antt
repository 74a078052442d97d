-- ===== src/Find/Examples.antt =====
-- A block "ab", "a" in bold, a picture, and "aa"; the search for "a".
use yanta.Prelude.{
  drop, ◌≡◌, refl, ℕ, Bool, true, false, none, some, List, [], ◌∷◌, ◌==◌, if◌then◌else◌,
}
use yanta.Find.{
  FindMatch, text_node, atom, Textblock, starts_with, first_index, index_of, occurrences, find_all,
  segment_pos, map_index_to_pos, matches_at, run_matches, flush, find_in_children, find_in_blocks,
  find_matches,
}
use yanta.Find.Occurrences.{Leftmost, find_all_lem}
use yanta.Find.Runs.{runs_of, InRuns}
use yanta.Find.Runs.Search.{find_matches-InRuns}
use yanta.Find.Plugin.{
  pos, negsuc, wrap_index, Transaction, apply, empty_state, Follows, Reached, init, step, IsCurrent,
  Reached-IsCurrent,
}

abbrev needle : List ℕ
needle = 97 ∷ 97 ∷ []

abbrev hay : List ℕ
hay = 98 ∷ 97 ∷ 97 ∷ 97 ∷ []

find_all_lem_example :
    (found : List ℕ) × (find_all needle hay ≡ some found) × Leftmost needle hay 0 found
find_all_lem_example = find_all_lem 97 (97 ∷ []) hay

found_in_hay : find_all needle hay ≡ some (1 ∷ [])
unfolding find_all occurrences index_of first_index starts_with
found_in_hay = refl

at_2 : starts_with needle (drop 2 hay) ≡ true
unfolding starts_with
at_2 = refl

abbrev block : Textblock
block = record {
  pos = 4;
  children =
      text_node 0 (97 ∷ 98 ∷ []) ∷ text_node 2 (97 ∷ []) ∷ atom 3 ∷ text_node 4 (97 ∷ 97 ∷ []) ∷ [];
}

abbrev unchanged_case : List ℕ → List ℕ
unchanged_case s = s

found_in_block :
    find_matches unchanged_case true (97 ∷ []) (block ∷ [])
    ≡ some (
        record { from = 5; to = 6 }
        ∷ record { from = 7; to = 8 }
        ∷ record { from = 9; to = 10 }
        ∷ record { from = 10; to = 11 }
        ∷ [])
unfolding find_matches find_in_blocks find_in_children flush run_matches find_all occurrences
    index_of first_index starts_with matches_at map_index_to_pos segment_pos
found_in_block = refl

find_matches-InRuns_example :
    (ms : List FindMatch) × (find_matches unchanged_case true (97 ∷ []) (block ∷ []) ≡ some ms)
    × InRuns unchanged_case true 97 [] (runs_of (block ∷ [])) ms
find_matches-InRuns_example =
    find_matches-InRuns unchanged_case true 97 [] 97 [] (block ∷ []) refl ((refl, tt), tt)
      (refl, (refl, tt))

abbrev find : List Textblock → List ℕ → Bool → List FindMatch
find doc query case_sensitive = elim (find_matches unchanged_case case_sensitive query doc) [
  | none ↦ []
  | some ms ↦ ms
]

abbrev search_tr : Transaction
search_tr = record {
  doc = block ∷ [];
  doc_changed = false;
  meta = some (record { query = some (97 ∷ []); case_sensitive = none; active_index = none });
}

abbrev back_tr : Transaction
back_tr = record {
  doc = block ∷ [];
  doc_changed = false;
  meta = some (record { query = none; case_sensitive = none; active_index = some (negsuc 0) });
}

searched_back : Reached find (block ∷ []) (apply find back_tr (apply find search_tr empty_state))
searched_back = step (step (init {doc = block ∷ []}) search_tr search_follows) back_tr back_follows
  where
    search_follows : Follows find (block ∷ []) search_tr
    search_follows = record { unchanged = λ e. refl; moves = λ meta i e e'. refl }

    back_follows : Follows find (block ∷ []) back_tr
    back_follows = record { unchanged = λ e. refl; moves = λ meta i e e'. refl }

Reached-IsCurrent_example :
    IsCurrent find (block ∷ []) (apply find back_tr (apply find search_tr empty_state))
Reached-IsCurrent_example = Reached-IsCurrent find searched_back

-- The match before the first one is the last one.
back_is_last : wrap_index (negsuc 0) 4 ≡ pos 3
unfolding wrap_index
back_is_last = refl

-- A capital whose lower case is longer puts the matches after it one character too far to the right:
-- the "a" of "Xa" at position 2 is found at 3.
abbrev longer_x : List ℕ → List ℕ
longer_x [] = []
longer_x (c ∷ s) = let rest = longer_x s in if c == 88 then 120 ∷ 775 ∷ rest else c ∷ rest

found_too_far :
    find_matches longer_x false
      (97 ∷ [])
      (record { pos = 0; children = text_node 0 (88 ∷ 97 ∷ []) ∷ [] } ∷ [])
    ≡ some (record { from = 3; to = 4 } ∷ [])
unfolding find_matches find_in_blocks find_in_children flush run_matches find_all occurrences
    index_of first_index starts_with matches_at map_index_to_pos segment_pos
found_too_far = refl
