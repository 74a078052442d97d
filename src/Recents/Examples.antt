-- ===== src/Recents/Examples.antt =====
-- The recent documents on concrete lists.
use yanta.Prelude.{◌≡◌, refl, false, List, [], ◌∷◌, String, str_eq, if◌then◌else◌}
use yanta.Recents.{
  find_path, without, refresh_all, push_kept, refreshed, RecentDocument, add_recent_document,
  refresh, Fetched, failed, fetched, are_recent_documents_equal,
}

abbrev notes : RecentDocument
notes = record { path = "p/notes.json"; title = "Notes"; project_alias = "p"; last_opened = 3 }

abbrev todo : RecentDocument
todo = record { path = "p/todo.json"; title = "Todo"; project_alias = "p"; last_opened = 2 }

abbrev notes_again : RecentDocument
notes_again = record {
  path = "p/notes.json";
  title = "Notes 2";
  project_alias = "p";
  last_opened = 9;
}

abbrev two_documents : List RecentDocument
two_documents = todo ∷ notes ∷ []

add_test : add_recent_document notes_again two_documents ≡ notes_again ∷ todo ∷ []
unfolding add_recent_document find_path without
add_test = refl

abbrev only_notes : String → Fetched
only_notes path = if str_eq path "p/notes.json" then fetched "" false else failed

refresh_test : refresh only_notes two_documents ≡ notes ∷ []
unfolding refresh are_recent_documents_equal refresh_all push_kept refreshed
refresh_test = refl
