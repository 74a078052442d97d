-- ===== src/Preferences/Deleting.antt =====
-- What deleting the override of a shortcut does,
-- frontend/src/shared/stores/preferences.store.ts.
use mathlib.Core.Path.{subst}
use yanta.Prelude.{
  true, ◌&&◌, Option, none, some, String, str_eq, str_eq-ne, str_eq-cases, inl, inr, List, [], ◌∷◌,
  lookup, lookup-insert, lookup-erase, erase, arith, eq_refl, refl, ap, ◌∙◌, ◌≡◌, if◌then◌else◌,
}
use yanta.Preferences.{Shortcuts}
use yanta.Preferences.Store.{
  State, Outcome, existing, or_empty, filled, group_of, updated_shortcuts, delete_key, delete_in,
  delete_shortcut_override,
}
use yanta.Preferences.Saving.{key_in, combo, group_of-filled}

lookup-updated_shortcuts :
    (g j : String) (es : List (String × String)) (s : Shortcuts)
    → lookup j (updated_shortcuts g es s) ≡ (if str_eq g j then filled es else lookup j s)
lookup-updated_shortcuts g j [] s = lookup-erase g j s
lookup-updated_shortcuts g j (e ∷ es) s = lookup-insert g j (e ∷ es) s

key_in-filled : (k : String) (es : List (String × String)) → key_in k (filled es) ≡ lookup k es
key_in-filled k [] = refl
key_in-filled k (e ∷ es) = refl

group_of-or_empty : (g : String) (o : Option Shortcuts) → lookup g (or_empty o) ≡ group_of g o
group_of-or_empty g none = refl
group_of-or_empty g (some s) = refl

-- A combination that is not there can be deleted without a change.
combo-missing :
    (g k j l : String) (o : Option Shortcuts)
    → combo g k o ≡ none
    → combo j l o ≡ (if str_eq g j && str_eq k l then none else combo j l o)
combo-missing g k j l o h = elim (str_eq-cases g j) [
  | inl e ↦ elim (str_eq-cases k l) [
    | inl f ↦
        subst (λ x. combo x l o ≡ (if str_eq g x && str_eq k l then none else combo x l o)) (e)
          (subst (λ y. combo g y o ≡ (if str_eq g g && str_eq k y then none else combo g y o)) (f)
            (rw (eq_refl g, eq_refl k) h))
    | inr ne ↦ rw (str_eq-ne k l ne) (ground arith)
  ]
  | inr ne ↦ rw (str_eq-ne g j ne) refl
]

combo-updated :
    (g k j l : String) (o : Option Shortcuts) (es : List (String × String))
    → group_of g o ≡ some es
    → combo j l (filled (updated_shortcuts g (erase k es) (or_empty o)))
      ≡ (if str_eq g j && str_eq k l then none else combo j l o)
combo-updated g k j l o es h =
    ap (key_in l) (
      group_of-filled j (updated_shortcuts g (erase k es) (or_empty o))
      ∙ lookup-updated_shortcuts g j (erase k es) (or_empty o)
      ∙ ap (λ x. if str_eq g j then filled (erase k es) else x) (group_of-or_empty j o))
    ∙ elim (str_eq-cases g j) [
      | inl e ↦
          subst
            (λ x.
              key_in l (if str_eq g x then filled (erase k es) else group_of x o)
              ≡ (if str_eq g x && str_eq k l then none else key_in l (group_of x o)))
            (e) (rw (eq_refl g, h) (key_in-filled l (erase k es) ∙ lookup-erase k l es))
      | inr ne ↦ rw (str_eq-ne g j ne) refl
    ]

-- After the override of a shortcut is deleted, its action has no combination of the user's, and
-- every other action of every group has the one it had, whether or not there was one to delete.
pub combo-delete_shortcut_override :
    {V : Type 0} (g k j l : String) (s : State V)
    → combo j l (existing (delete_shortcut_override g k true s).state).shortcuts
      ≡ (if str_eq g j && str_eq k l then none else combo j l (existing s).shortcuts)
unfolding delete_shortcut_override
combo-delete_shortcut_override {V} g k j l s = by_group (group_of g o) refl
  where
    o : Option Shortcuts
    o = (existing s).shortcuts

    after : Outcome V → Option String
    after r = combo j l (existing r.state).shortcuts

    goal : Option String
    goal = if str_eq g j && str_eq k l then none else combo j l o

    by_key :
        (es : List (String × String)) (c : Option String)
        → group_of g o ≡ some es
        → lookup k es ≡ c
        → after (delete_key g k c es true s) ≡ goal
    by_key es none h e = combo-missing g k j l o (ap (key_in k) h ∙ e)
    by_key es (some c) h e = combo-updated g k j l o es h

    by_group :
        (d : Option (List (String × String)))
        → group_of g o ≡ d
        → after (delete_in g k d true s) ≡ goal
    by_group none h = combo-missing g k j l o (ap (key_in k) h)
    by_group (some es) h = by_key es (lookup k es) h refl
