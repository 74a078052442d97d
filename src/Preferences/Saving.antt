-- ===== src/Preferences/Saving.antt =====
-- What saving overrides does to a shortcut,
-- frontend/src/shared/stores/preferences.store.ts.
use mathlib.Core.Path.{subst}
use yanta.Prelude.{
  Bool, true, false, ◌||◌, Option, none, some, String, str_eq, str_eq-ne, str_eq-cases, inl, inr,
  List, [], ◌∷◌, lookup, lookup-insert, insert, keys, Distinct, any, All, arith, eq_iff, eq_refl,
  refl, sym, ap, ◌∙◌, ◌≡◌, ◌≢◌, if◌then◌else◌,
}
use yanta.Preferences.{Shortcuts, Overrides}
use yanta.Preferences.Merge.{groups}
use yanta.Preferences.Groups.{is_group}
use yanta.Preferences.Store.{
  State, existing, later, spread, or_empty, filled, merged_group, write, group_of, merge_saved,
  merged_overrides, save_overrides,
}

abbrev pub key_in : String → Option (List (String × String)) → Option String
key_in k none = none
key_in k (some es) = lookup k es

-- The combination that the overrides give an action of a group.
abbrev pub combo : String → String → Option Shortcuts → Option String
combo g k s = key_in k (group_of g s)

lookup-absent :
    {A : Type 0} (k : String) (m : List (String × A))
    → All (λ j. j ≢ k) (keys m)
    → lookup k m ≡ none
lookup-absent k [] h = refl
lookup-absent k ((j, v) ∷ m) (h, hs) = rw (str_eq-ne j k h) (lookup-absent k m hs)

lookup-spread :
    {A : Type 0} (k : String) (a b : List (String × A))
    → Distinct (keys b)
    → lookup k (spread a b) ≡ later (lookup k a) (lookup k b)
unfolding spread
lookup-spread k a [] d = refl
lookup-spread k a ((j, v) ∷ b) (h, d) =
    rw (lookup-spread k (insert j v a) b d, lookup-insert j k v a)
      (elim (str_eq-cases j k) [
        | inl e ↦
            rw (lookup-absent k b (subst (λ x. All (λ i. i ≢ x) (keys b)) (e) h))
              (ground (arith, eq_iff j k))
        | inr ne ↦ rw (str_eq-ne j k ne) refl
      ])

lookup-write :
    {A : Type 0} (g k : String) (v : Option A) (m : List (String × A))
    → lookup g (write k v m) ≡ later (lookup g m) (if str_eq k g then v else none)
lookup-write g k none m = ground arith
lookup-write g k (some v) m = lookup-insert k g v m ∙ ground arith

later-twice :
    {A : Type 0} (a b : Option A) (q : Bool) → later (later a b) (if q then b else none) ≡ later a b
later-twice a none q = ground arith
later-twice a (some b) q = ground arith

lookup-merge_saved :
    (g : String) (gs : List String) (old new : Option Shortcuts) (acc : Shortcuts)
    → lookup g (merge_saved gs old new acc)
      ≡ later (lookup g acc) (
          if any (λ h. str_eq h g) gs then merged_group (group_of g old) (group_of g new) else none)
unfolding merge_saved
lookup-merge_saved g [] old new acc = refl
lookup-merge_saved g (h ∷ gs) old new acc =
    let merged = λ (x : String). merged_group (group_of x old) (group_of x new) in
    rw (lookup-merge_saved g gs old new (write h (merged h) acc), lookup-write g h (merged h) acc)
      (elim (str_eq-cases h g) [
        | inl e ↦
            subst
              (λ x.
                later (later (lookup g acc) (if str_eq x g then merged x else none))
                  (if any (λ y. str_eq y g) gs then merged g else none)
                ≡ later (lookup g acc)
                    (if str_eq x g || any (λ y. str_eq y g) gs then merged g else none))
              (sym e)
              (rw (eq_refl g) (later-twice (lookup g acc) (merged g) (any (λ y. str_eq y g) gs)))
        | inr ne ↦ rw (str_eq-ne h g ne) refl
      ])

-- Whether the groups of some overrides are objects: no key stands twice.
abbrev pub AreObjects : Option Shortcuts → Type 0
AreObjects none = Unit
AreObjects (some s) = All (λ e. Distinct (keys e.1)) s

later-none : {A : Type 0} (a : Option A) → later none a ≡ a
later-none none = refl
later-none (some a) = refl

pub group_of-filled : (g : String) (s : Shortcuts) → group_of g (filled s) ≡ lookup g s
group_of-filled g [] = refl
group_of-filled g (e ∷ s) = refl

key_in-empty :
    (k : String) (o : Option (List (String × String))) → lookup k (or_empty o) ≡ key_in k o
key_in-empty k none = refl
key_in-empty k (some es) = refl

abbrev IsObject : Option (List (String × String)) → Type 0
IsObject none = Unit
IsObject (some es) = Distinct (keys es)

lookup-IsObject :
    (g : String) (s : Shortcuts) → All (λ e. Distinct (keys e.1)) s → IsObject (lookup g s)
lookup-IsObject g [] h = tt
lookup-IsObject g ((k, es) ∷ s) (h, hs) = pick (str_eq k g) (lookup-IsObject g s hs)
  where
    pick : (b : Bool) → IsObject (lookup g s) → IsObject (if b then some es else lookup g s)
    pick true r = h
    pick false r = r

group_of-IsObject : (g : String) (s : Option Shortcuts) → AreObjects s → IsObject (group_of g s)
group_of-IsObject g none h = tt
group_of-IsObject g (some s) h = lookup-IsObject g s h

key_in-merged :
    (k : String) (old new : Option (List (String × String)))
    → IsObject new
    → key_in k (merged_group old new) ≡ later (key_in k old) (key_in k new)
key_in-merged k old none d = refl
key_in-merged k old (some []) d = refl
key_in-merged k old (some (e ∷ es)) d =
    lookup-spread k (or_empty old) (e ∷ es) d
    ∙ ap (λ x. later x (lookup k (e ∷ es))) (key_in-empty k old)

-- After a save that the backend accepts, an action of a known group has the new combination where
-- the new overrides name one, and else the one it had; and these overrides are what was sent.
-- A save that is rejected leaves the store as it was.
pub combo-save_overrides :
    {V : Type 0} (g k : String) (new : Overrides V) (s : State V)
    → is_group g ≡ true
    → AreObjects new.shortcuts
    → (combo g k (existing (save_overrides new true s).state).shortcuts
        ≡ later (combo g k (existing s).shortcuts) (combo g k new.shortcuts))
      × ((save_overrides new true s).sent ≡ (save_overrides new true s).state.overrides)
      × ((save_overrides new false s).state ≡ s)
unfolding save_overrides merged_overrides
combo-save_overrides g k new s known objects =
    let old = (existing s).shortcuts in
    (
      ap (key_in k) (
            group_of-filled g (merge_saved groups old new.shortcuts [])
            ∙ lookup-merge_saved g groups old new.shortcuts []
            ∙ later-none _
            ∙ ap (λ b. if b then merged_group (group_of g old) (group_of g new.shortcuts) else none)
                known)
          ∙ key_in-merged k (group_of g old) (group_of g new.shortcuts)
              (group_of-IsObject g new.shortcuts objects),
      refl,
      refl,
    )
