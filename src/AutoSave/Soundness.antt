-- ===== src/AutoSave/Soundness.antt =====
-- No edit is forgotten: whatever happens, an edit that is not saved has something that will save
-- it, or its error is shown.
use yanta.Prelude.{
  ℕ, ◌≡◌, Bool, true, false, not, ◌&&◌, ◌||◌, Option, none, some, List, [], ◌∷◌, String, str_eq,
  ltb, if◌then◌else◌, arith, eq_iff, eq_refl, Bool-cases, inl, inr,
}
use yanta.AutoSave.{
  AutoSave, is_some, perform_save, save_now, value_effect, initialized, save_succeeded, save_failed,
  Event, value_changed, became_initialized, timer_fires, retry_fires, saved_state_timer_fires,
  save_resolves, save_rejects, asked_to_save, window_blurs, before_unload, resolve, reject,
  run_retry, step, unmounted, run, take_baseline,
}

abbrev pub is_dirty : AutoSave → Bool
is_dirty s = s.enabled && s.has_user_made_changes && not (str_eq s.current_key s.last_saved_key)

abbrev pub is_pending : AutoSave → Bool
is_pending s = s.timer || is_some s.in_flight || is_some s.retry || s.failed

pub record IsSound (s : AutoSave) : Type 0 where
  pub kept : is_dirty s ≡ true → is_pending s ≡ true
  pub shown : s.enabled ≡ true → s.has_unsaved_changes ≡ not (str_eq s.current_key s.last_saved_key)

perform_save-IsSound : (k : ℕ) (s : AutoSave) → IsSound s → IsSound (perform_save k s)
unfolding perform_save
perform_save-IsSound k s v = record { kept = grind (arith, v.kept); shown = grind (arith, v.shown) }

save_now-IsSound : (s : AutoSave) → IsSound s → IsSound (save_now s)
unfolding save_now perform_save
save_now-IsSound s v = record { kept = grind (arith, v.kept); shown = grind (arith, v.shown) }

value_effect-IsSound :
    (key : String) (enabled : Bool) (s : AutoSave) → IsSound (value_effect key enabled s)
unfolding value_effect
value_effect-IsSound key enabled s = record { kept = ground arith; shown = ground arith }

initialized-IsSound :
    (key : String) (enabled : Bool) (s : AutoSave) → IsSound s → IsSound (initialized key enabled s)
unfolding initialized
initialized-IsSound key enabled s v = elim (Bool-cases (str_eq key s.current_key)) [
  | inl same ↦ rw same (record {
    kept = ground arith;
    shown = ground (arith, eq_iff key s.current_key, eq_refl key);
  })
  | inr moved ↦ rw moved (value_effect-IsSound key enabled (take_baseline key s))
]

save_succeeded-IsSound : (key : String) (s : AutoSave) → IsSound (save_succeeded key s)
unfolding save_succeeded
save_succeeded-IsSound key s = record { kept = ground arith; shown = ground arith }

save_failed-IsSound :
    (max_retries k : ℕ) (s : AutoSave) → IsSound s → IsSound (save_failed max_retries k s)
unfolding save_failed
save_failed-IsSound max_retries k s v = elim (Bool-cases (ltb k max_retries)) [
  | inl again ↦ rw again (record { kept = ground arith; shown = v.shown })
  | inr given_up ↦ rw given_up (record { kept = ground arith; shown = v.shown })
]

resolve-IsSound : (o : Option (String × ℕ)) (s : AutoSave) → IsSound s → IsSound (resolve o s)
resolve-IsSound none s v = v
resolve-IsSound (some (key, _)) s v = save_succeeded-IsSound key s

reject-IsSound :
    (max_retries : ℕ) (o : Option (String × ℕ)) (s : AutoSave)
    → IsSound s
    → IsSound (reject max_retries o s)
reject-IsSound max_retries none s v = v
reject-IsSound max_retries (some (_, k)) s v = save_failed-IsSound max_retries k s v

run_retry-IsSound : (o : Option ℕ) (s : AutoSave) → IsSound s → IsSound (run_retry o s)
unfolding perform_save
run_retry-IsSound none s v = v
run_retry-IsSound (some k) s v = record { kept = ground arith; shown = grind (arith, v.shown) }

fire-IsSound : (s : AutoSave) → IsSound s → IsSound (record (perform_save 0 s) { timer = false })
unfolding perform_save
fire-IsSound s v = record { kept = ground arith; shown = grind (arith, v.shown) }

-- Either way of a test.
either-IsSound :
    (b : Bool) (s s' : AutoSave) → IsSound s → IsSound s' → IsSound (if b then s else s')
either-IsSound true s s' v v' = v
either-IsSound false s s' v v' = v'

step-IsSound :
    (max_retries : ℕ) (e : Event) (s : AutoSave) → IsSound s → IsSound (step max_retries e s)
unfolding step
step-IsSound m (value_changed key enabled) s v = value_effect-IsSound key enabled s
step-IsSound m (became_initialized key enabled) s v = initialized-IsSound key enabled s v
step-IsSound m timer_fires s v = either-IsSound s.timer _ s (fire-IsSound s v) v
step-IsSound m retry_fires s v = run_retry-IsSound s.retry s v
step-IsSound m saved_state_timer_fires s v =
    either-IsSound s.saved_state_timer _ s (record { kept = v.kept; shown = v.shown }) v
step-IsSound m save_resolves s v = resolve-IsSound s.in_flight s v
step-IsSound m save_rejects s v = reject-IsSound m s.in_flight s v
step-IsSound m asked_to_save s v = save_now-IsSound s v
step-IsSound m window_blurs s v = either-IsSound _ (save_now s) s (save_now-IsSound s v) v
step-IsSound m before_unload s v = either-IsSound _ (save_now s) s (save_now-IsSound s v) v

pub run-IsSound :
    (max_retries : ℕ) (es : List Event) (s : AutoSave) → IsSound s → IsSound (run max_retries es s)
unfolding run
run-IsSound m [] s v = v
run-IsSound m (e ∷ es) s v = run-IsSound m es (step m e s) (step-IsSound m e s v)

pub unmounted-IsSound : IsSound unmounted
unmounted-IsSound = record { kept = ground arith; shown = ground arith }
