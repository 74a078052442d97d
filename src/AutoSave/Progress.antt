-- ===== src/AutoSave/Progress.antt =====
-- What is pending does save the edit.
use yanta.Prelude.{ℕ, ◌≡◌, true, false, List, [], ◌∷◌, String, str_eq, arith, eq_iff}
use yanta.AutoSave.{
  AutoSave, perform_save, value_effect, save_succeeded, Event, value_changed, timer_fires,
  retry_fires, save_resolves, step, unmounted, run,
}
use yanta.AutoSave.Soundness.{IsSound, is_dirty}

-- What is in flight succeeds, what is pending then runs, and its save succeeds.
abbrev pub drain : List Event
drain = save_resolves ∷ timer_fires ∷ retry_fires ∷ save_resolves ∷ []

-- In a sound state with an edit of the user that is not saved, and no error, letting what is
-- pending run, with saves that succeed, saves the current key.
pub drain_lem :
    (max_retries : ℕ) (s : AutoSave)
    → IsSound s
    → is_dirty s ≡ true
    → s.failed ≡ false
    → (run max_retries drain s).last_saved_key ≡ s.current_key
unfolding run step perform_save save_succeeded
drain_lem m s v dirty ok = grind (arith, v.kept, eq_iff)

-- An editor that is mounted with text and enabled starts out with unsaved changes and a pending
-- save, before any edit.
pub mounted_dirty :
    (max_retries : ℕ) (key : String)
    → str_eq key "" ≡ false
    → let s = step max_retries (value_changed key true) unmounted in
      (s.has_unsaved_changes ≡ true) × (s.timer ≡ true)
unfolding step value_effect
mounted_dirty m key h = ground (arith)
