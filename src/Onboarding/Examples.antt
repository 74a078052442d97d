-- ===== src/Onboarding/Examples.antt =====
-- The welcome at work, frontend/src/shared/stores/onboarding.store.ts, with a storage that keeps the
-- JSON values themselves.
use yanta.Prelude.{Bool, true, false, Option, none, some, List, [], ◌∷◌, refl, ◌≡◌}
use yanta.Json.{Json, bool, str, obj, member, last}
use yanta.Persist.{Event, change, restart}
use yanta.Onboarding.{
  OnboardingData, Action, complete_onboarding, reset_onboarding, has_completed_onboarding, get_item,
  validate_onboarding_data,
}
use yanta.Onboarding.Sessions.{run_sessions, completed_last, has_completed_onboarding-run_sessions}

abbrev never_empty : Json → Bool
never_empty v = false

abbrev parsed : Json → Option Json
parsed v = some v

abbrev printed : Json → Json
printed v = v

abbrev merged : Option OnboardingData → Option (Option OnboardingData) → Option OnboardingData
merged c none = c
merged c (some d) = d

abbrev events : List (Event Action)
events = change (complete_onboarding 7) ∷ restart ∷ change reset_onboarding ∷ restart ∷ []

has_completed_onboarding-run_sessions_example :
    has_completed_onboarding (run_sessions parsed printed never_empty merged events).state
    ≡ completed_last events false
has_completed_onboarding-run_sessions_example =
    has_completed_onboarding-run_sessions parsed printed never_empty merged events (λ d. refl)
      (λ d. refl) (λ c. refl) (λ c d. refl)

-- A time that is no number makes the stored data void.
time_checked :
    get_item parsed printed never_empty (
      some (
        obj (
          member "completedWelcome"
            (bool true)
            (member "completedAt" (str "now") (member "version" (str "1.0.0") last)))))
    ≡ some none
unfolding get_item validate_onboarding_data
time_checked = refl
