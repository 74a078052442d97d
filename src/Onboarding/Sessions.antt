-- ===== src/Onboarding/Sessions.antt =====
-- The welcome over sessions, frontend/src/shared/stores/onboarding.store.ts.
use yanta.Prelude.{
  ℕ, Bool, true, false, Option, none, some, List, [], ◌∷◌, ap, refl, ◌∙◌, ◌≡◌, inl, inr,
}
use yanta.Json.{Json}
use yanta.Persist.{Event, change, rehydrate, restart, Session, replay, run, IsRestored, run-replay}
use yanta.Onboarding.{
  OnboardingData, validate_onboarding_data, to_json, Action, complete_onboarding, reset_onboarding,
  act, has_completed_onboarding, get_item, set_item,
}

validate-to_json : (d : OnboardingData) → validate_onboarding_data (to_json d) ≡ some d
unfolding validate_onboarding_data
validate-to_json d = by_time d.completed_at
  where
    by_time :
        (t : Option ℕ)
        → validate_onboarding_data (to_json (record d { completed_at = t }))
          ≡ some (record d { completed_at = t })
    by_time none = refl
    by_time (some t) = refl

-- The answer by the last change: whether it was a completion.
unfoldable pub completed_last : List (Event Action) → Bool → Bool
completed_last [] b = b
completed_last (change (complete_onboarding now) ∷ es) b = completed_last es true
completed_last (change reset_onboarding ∷ es) b = completed_last es false
completed_last (rehydrate ∷ es) b = completed_last es b
completed_last (restart ∷ es) b = completed_last es b

has_completed_onboarding-replay :
    (es : List (Event Action)) (s : Option OnboardingData)
    → has_completed_onboarding (replay act es s) ≡ completed_last es (has_completed_onboarding s)
unfolding replay act completed_last has_completed_onboarding
has_completed_onboarding-replay [] s = refl
has_completed_onboarding-replay (change (complete_onboarding now) ∷ es) s =
    has_completed_onboarding-replay es (act (complete_onboarding now) s)
has_completed_onboarding-replay (change reset_onboarding ∷ es) s =
    has_completed_onboarding-replay es none
has_completed_onboarding-replay (rehydrate ∷ es) s = has_completed_onboarding-replay es s
has_completed_onboarding-replay (restart ∷ es) s = has_completed_onboarding-replay es s

abbrev pub fresh : {Text : Type 0} → Session (Option OnboardingData) Text
fresh = record { state = none; stored = none }

module _ {Text : Type 0} (parse : Text → Option Json) (stringify : Json → Text)
    (is_empty : Text → Bool) where
  -- The store over sessions that keep its state in the storage; `merge` is zustand's.
  abbrev pub run_sessions :
      (Option OnboardingData → Option (Option OnboardingData) → Option OnboardingData)
      → List (Event Action)
      → Session (Option OnboardingData) Text
  run_sessions merge es =
      run none act merge (get_item parse stringify is_empty) (set_item parse stringify is_empty) es
        fresh

  set_item-IsRestored :
      ((d : OnboardingData) → parse (stringify (to_json d)) ≡ some (to_json d))
      → ((d : OnboardingData) → is_empty (stringify (to_json d)) ≡ false)
      → (merge : Option OnboardingData → Option (Option OnboardingData) → Option OnboardingData)
      → (s : Option OnboardingData)
      → IsRestored none act merge
          (get_item parse stringify is_empty)
          (set_item parse stringify is_empty)
          s
  unfolding get_item set_item
  set_item-IsRestored back nonempty merge none = inr (refl, refl)
  set_item-IsRestored back nonempty merge (some d) =
      inl
        (rw (nonempty d, back d) (ap (λ (o : Option OnboardingData). some o) (validate-to_json d)))

  -- Where JSON.parse gives back the data that JSON.stringify printed, as texts that are not empty,
  -- and a state is merged as a whole, or stays where there is nothing to merge: the welcome counts as
  -- completed, from an empty storage on, exactly when the last change was a completion, whatever new
  -- sessions and rehydrations come between.
  pub has_completed_onboarding-run_sessions :
      (merge : Option OnboardingData → Option (Option OnboardingData) → Option OnboardingData)
      (es : List (Event Action))
      → ((d : OnboardingData) → parse (stringify (to_json d)) ≡ some (to_json d))
      → ((d : OnboardingData) → is_empty (stringify (to_json d)) ≡ false)
      → ((c : Option OnboardingData) → merge c none ≡ c)
      → ((c d : Option OnboardingData) → merge c (some d) ≡ d)
      → has_completed_onboarding (run_sessions merge es).state ≡ completed_last es false
  unfolding get_item has_completed_onboarding
  has_completed_onboarding-run_sessions merge es back nonempty stays replaced =
      ap has_completed_onboarding (
        run-replay none act merge (get_item parse stringify is_empty)
          (set_item parse stringify is_empty) stays replaced
          (set_item-IsRestored back nonempty merge) es fresh (stays none, stays none))
      ∙ has_completed_onboarding-replay es none
