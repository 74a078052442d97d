-- ===== src/Persist.antt =====
-- A store that the browser's storage keeps, as frontend/src/shared/stores/progress.store.ts and
-- onboarding.store.ts use zustand's `persist`: after a change the state goes to `setItem`, and what
-- `getItem` gives is merged over the current state when a session starts or another window has
-- written. `merge` is zustand's. The storage takes every text that it is given.
use yanta.Prelude.{Option, none, some, List, [], ◌∷◌, refl, sym, ap, ◌∙◌, ◌≡◌, ◌⊎◌, inl, inr}

pub data Event (A : Type 0) : Type 0 where
  change : A → Event A
  rehydrate restart : Event A

pub record Session (S Text : Type 0) : Type 0 where
  pub state : S
  pub stored : Option Text

-- The changes alone, with no storage.
module _ {S A : Type 0} (act : A → S → S) where
  abbrev pub after : Event A → S → S
  after (change a) d = act a d
  after rehydrate d = d
  after restart d = d

  unfoldable pub replay : List (Event A) → S → S
  replay [] d = d
  replay (e ∷ es) d = replay es (after e d)

module _ {S A Text : Type 0} (initial : S) (act : A → S → S) (merge : S → Option S → S)
    (get_item : Option Text → Option S) (set_item : S → Option Text) where
  abbrev pub step : Event A → Session S Text → Session S Text
  step (change a) s = record { state = act a s.state; stored = set_item (act a s.state) }
  step rehydrate s = record s { state = merge s.state (get_item s.stored) }
  step restart s = record s { state = merge initial (get_item s.stored) }

  unfoldable pub run : List (Event A) → Session S Text → Session S Text
  run [] s = s
  run (e ∷ es) s = run es (step e s)

  -- Taking the state from the storage, in this session or in a new one, changes nothing.
  abbrev pub IsKept : S → Option Text → Type 0
  IsKept d stored = (merge initial (get_item stored) ≡ d) × (merge d (get_item stored) ≡ d)

  -- The storage gives a state back, or nothing of the initial one.
  abbrev pub IsRestored : S → Type 0
  IsRestored d = (get_item (set_item d) ≡ some d) ⊎ ((get_item (set_item d) ≡ none) × (initial ≡ d))

  -- A state with nothing to merge stays, and one that is given replaces all of it.
  module _ (merge-none : (c : S) → merge c none ≡ c) (merge-some : (c d : S) → merge c (some d) ≡ d)
      (restores : (d : S) → IsRestored d) where
    set_item-IsKept : (d : S) → IsKept d (set_item d)
    set_item-IsKept d = elim (restores d) [
      | inl e ↦ (ap (merge initial) e ∙ merge-some initial d, ap (merge d) e ∙ merge-some d d)
      | inr (e, q) ↦ (ap (merge initial) e ∙ merge-none initial ∙ q, ap (merge d) e ∙ merge-none d)
    ]

    merge_twice : (c : S) (g : Option S) → merge (merge c g) g ≡ merge c g
    merge_twice c none = merge-none (merge c none)
    merge_twice c (some d) = merge-some (merge c (some d)) d ∙ sym (merge-some c d)

    step-IsKept :
        (e : Event A) (s : Session S Text)
        → IsKept s.state s.stored
        → IsKept (step e s).state (step e s).stored × ((step e s).state ≡ after act e s.state)
    step-IsKept (change a) s k = (set_item-IsKept (act a s.state), refl)
    step-IsKept rehydrate s (a, b) = ((a ∙ sym b, merge_twice s.state (get_item s.stored)), b)
    step-IsKept restart s (a, b) = ((refl, merge_twice initial (get_item s.stored)), a)

    pub run-replay :
        (es : List (Event A)) (s : Session S Text)
        → IsKept s.state s.stored
        → (run es s).state ≡ replay act es s.state
    unfolding run replay
    run-replay [] s k = refl
    run-replay (e ∷ es) s k =
        let next = step-IsKept e s k in run-replay es (step e s) next.0 ∙ ap (replay act es) next.1
