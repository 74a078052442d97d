-- ===== src/AutoSave.antt =====
-- The auto-save hook, frontend/src/shared/hooks/useAutoSave.ts, as a state machine: its refs and
-- state are a record, and what can happen to it is an event.  A timer is whether it is pending: how
-- long it waits is not modelled, so events may come in any order.  An event of a timer that is not
-- pending, or of a save that is not in flight, does nothing.
pub mod Soundness
pub mod Progress
pub mod Examples
use yanta.Prelude.{
  ℕ, ◌+◌, Bool, true, false, not, ◌&&◌, ◌||◌, Option, none, some, List, [], ◌∷◌, String, str_eq,
  ltb, if◌then◌else◌,
}

pub data SaveState : Type 0 where
  idle : SaveState
  saving : SaveState
  saved : SaveState
  error : SaveState

-- `in_flight` is `isSavingRef` with the key and the count that `performSave` holds; `retry` is the
-- count with which the pending retry calls it; `cleans_up` is whether the last run of the effect on
-- the value gave React a cleanup; `failed` is whether `saveError` is set.
pub record AutoSave : Type 0 where
  pub enabled : Bool
  pub current_key : String
  pub last_saved_key : String
  pub initial_key : String
  pub has_user_made_changes : Bool
  pub has_unsaved_changes : Bool
  pub save_state : SaveState
  pub failed : Bool
  pub in_flight : Option (String × ℕ)
  pub timer : Bool
  pub cleans_up : Bool
  pub retry : Option ℕ
  pub saved_state_timer : Bool

abbrev pub is_some {ℓ} : {A : Type ℓ} → Option A → Bool
is_some none = false
is_some (some _) = true

unfoldable pub perform_save : ℕ → AutoSave → AutoSave
perform_save retry_count s = if is_some s.in_flight then s else record s {
  in_flight = some (s.current_key, retry_count);
  save_state = saving;
  failed = false;
}

unfoldable pub save_now : AutoSave → AutoSave
save_now s = perform_save 0 (record s { timer = false })

-- The effect on the value: first the cleanup of its last run, then its body.
abbrev pub clean_up : AutoSave → AutoSave
clean_up s = record s { timer = s.timer && not s.cleans_up; cleans_up = false }

abbrev pub note_value : String → Bool → AutoSave → AutoSave
note_value key enabled s = record s {
  enabled = enabled;
  current_key = key;
  has_user_made_changes = s.has_user_made_changes || not (str_eq key s.initial_key);
  has_unsaved_changes = not (str_eq key s.last_saved_key);
}

abbrev pub schedule : AutoSave → AutoSave
schedule s =
    if s.enabled && s.has_unsaved_changes && s.has_user_made_changes && not (is_some s.in_flight)
    then record s { timer = true; cleans_up = true }
    else s

unfoldable pub value_effect : String → Bool → AutoSave → AutoSave
value_effect key enabled s = schedule (note_value key enabled (clean_up s))

abbrev pub take_baseline : String → AutoSave → AutoSave
take_baseline key s = record s {
  last_saved_key = key;
  initial_key = key;
  has_user_made_changes = false;
  has_unsaved_changes = false;
}

-- The commit in which `isInitialized` becomes true; the effect on the value follows if the value
-- changes in it.
unfoldable pub initialized : String → Bool → AutoSave → AutoSave
initialized key enabled s =
    if str_eq key s.current_key
    then take_baseline key s
    else value_effect key enabled (take_baseline key s)

-- The rest of `performSave` when `onSave` succeeds, for the key that was in flight.
unfoldable pub save_succeeded : String → AutoSave → AutoSave
save_succeeded key s =
    let behind = s.enabled && not (str_eq s.current_key key) in
    record s {
      last_saved_key = key;
      save_state = saved;
      in_flight = none;
      saved_state_timer = true;
      has_unsaved_changes = behind;
      timer = s.timer || behind;
    }

-- And when it fails.
unfoldable pub save_failed : ℕ → ℕ → AutoSave → AutoSave
save_failed max_retries retry_count s =
    if ltb retry_count max_retries
    then record s { in_flight = none; retry = some (retry_count + 1) }
    else record s { in_flight = none; failed = true; save_state = error }

pub data Event : Type 0 where
  value_changed : (key : String) → (enabled : Bool) → Event
  became_initialized : (key : String) → (enabled : Bool) → Event
  timer_fires : Event
  retry_fires : Event
  saved_state_timer_fires : Event
  save_resolves : Event
  save_rejects : Event
  asked_to_save : Event
  window_blurs : Event
  before_unload : Event

abbrev pub resolve : Option (String × ℕ) → AutoSave → AutoSave
resolve none s = s
resolve (some (key, _)) s = save_succeeded key s

abbrev pub reject : ℕ → Option (String × ℕ) → AutoSave → AutoSave
reject max_retries none s = s
reject max_retries (some (_, retry_count)) s = save_failed max_retries retry_count s

abbrev pub run_retry : Option ℕ → AutoSave → AutoSave
run_retry none s = s
run_retry (some retry_count) s = record (perform_save retry_count s) { retry = none }

-- The handlers of the window are those of an editor that saves on blur and is initialized.
unfoldable pub step : ℕ → Event → AutoSave → AutoSave
step max_retries (value_changed key enabled) s = value_effect key enabled s
step max_retries (became_initialized key enabled) s = initialized key enabled s
step max_retries timer_fires s = if s.timer then record (perform_save 0 s) { timer = false } else s
step max_retries retry_fires s = run_retry s.retry s
step max_retries saved_state_timer_fires s =
    if s.saved_state_timer then record s { save_state = idle; saved_state_timer = false } else s
step max_retries save_resolves s = resolve s.in_flight s
step max_retries save_rejects s = reject max_retries s.in_flight s
step max_retries asked_to_save s = save_now s
step max_retries window_blurs s =
    if s.enabled && s.has_unsaved_changes && not (is_some s.in_flight) then save_now s else s
step max_retries before_unload s = if s.enabled && s.has_unsaved_changes then save_now s else s

-- A first render, before the effect on the value has run.
abbrev pub unmounted : AutoSave
unmounted = record {
  enabled = false;
  current_key = "";
  last_saved_key = "";
  initial_key = "";
  has_user_made_changes = false;
  has_unsaved_changes = false;
  save_state = idle;
  failed = false;
  in_flight = none;
  timer = false;
  cleans_up = false;
  retry = none;
  saved_state_timer = false;
}

unfoldable pub run : ℕ → List Event → AutoSave → AutoSave
run max_retries [] s = s
run max_retries (e ∷ es) s = run max_retries es (step max_retries e s)
