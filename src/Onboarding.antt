-- ===== src/Onboarding.antt =====
-- Whether the user has seen the welcome, frontend/src/shared/stores/onboarding.store.ts, with what
-- the browser's storage keeps of it. The storage's texts, JSON.parse (`none` where it throws),
-- JSON.stringify, whether a text is empty, and the time of a completion are given. A stored value's
-- properties that the type does not name are left out.
pub mod Sessions
pub mod Examples
use yanta.Prelude.{ℕ, Bool, true, false, Option, none, some, String, if◌then◌else◌}
use yanta.Json.{Json, null, bool, num, str, arr, obj, Members, last, member, get}

pub record OnboardingData : Type 0 where
  pub completed_welcome : Bool
  pub completed_at : Option ℕ
  pub version : String

abbrev pub current_version : String
current_version = "1.0.0"

-- `completedWelcome`, `version` and `completedAt`, each of its type or refused.
abbrev completed_at_of : Option Json → Option (Option ℕ)
completed_at_of none = some none
completed_at_of (some (num n)) = some (some n)
completed_at_of (some other) = none

abbrev with_time : Bool → String → Option (Option ℕ) → Option OnboardingData
with_time c v none = none
with_time c v (some t) = some (record { completed_welcome = c; completed_at = t; version = v })

abbrev validate_members : Option Json → Option Json → Option Json → Option OnboardingData
validate_members (some (bool c)) (some (str v)) t = with_time c v (completed_at_of t)
validate_members other v t = none

unfoldable pub validate_onboarding_data : Json → Option OnboardingData
validate_onboarding_data (obj parsed) =
    validate_members (get "completedWelcome" parsed) (get "version" parsed)
      (get "completedAt" parsed)
validate_onboarding_data other = none

-- JSON.stringify leaves out a time that is missing.
abbrev with_completed_at : Option ℕ → Members → Members
with_completed_at none m = m
with_completed_at (some t) m = member "completedAt" (num t) m

abbrev pub to_json : OnboardingData → Json
to_json d = obj (
    member "completedWelcome" (bool d.completed_welcome)
      (with_completed_at d.completed_at (member "version" (str d.version) last)))

pub data Action : Type 0 where
  complete_onboarding : ℕ → Action
  reset_onboarding : Action

-- `onboardingData` after an action; a completion names its time.
unfoldable pub act : Action → Option OnboardingData → Option OnboardingData
act (complete_onboarding now) s =
    some (record { completed_welcome = true; completed_at = some now; version = current_version })
act reset_onboarding s = none

unfoldable pub has_completed_onboarding : Option OnboardingData → Bool
has_completed_onboarding none = false
has_completed_onboarding (some d) = d.completed_welcome

module _ {Text : Type 0} (parse : Text → Option Json) (stringify : Json → Text)
    (is_empty : Text → Bool) where
  abbrev read : Option Json → Option (Option OnboardingData)
  read none = none
  read (some parsed) = some (validate_onboarding_data parsed)

  unfoldable pub get_item : Option Text → Option (Option OnboardingData)
  get_item none = none
  get_item (some raw) = if is_empty raw then none else read (parse raw)

  unfoldable pub set_item : Option OnboardingData → Option Text
  set_item none = none
  set_item (some d) = some (stringify (to_json d))
