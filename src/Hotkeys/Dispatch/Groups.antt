-- ===== src/Hotkeys/Dispatch/Groups.antt =====
-- Grouping the hotkeys of a phase by key loses none of them.
use yanta.Prelude.{
  ◌≡◌, refl, sym, true, Bool-cases, inl, inr, Option, String, str_eq, List, [], ◌∷◌, ◌++◌, lookup,
  insert, sort_by-perm,
}
use mathlib.Core.List.{Perm, append-nil, perm_append_singleton, perm_middle}
use mathlib.Core.List.Perm
use yanta.Hotkeys.Dispatch.{
  RegisteredHotkey, or_nil, group, flat, for_phase, capture_order, no_lower,
}

flat-insert :
    (h : RegisteredHotkey) (key : String) (m : List (String × List RegisteredHotkey))
    (o : Option (List RegisteredHotkey))
    → lookup key m ≡ o
    → Perm (flat (insert key (or_nil o ++ (h ∷ [])) m)) (h ∷ flat m)
flat-insert h key [] o e = rw (sym e) (Perm.refl (h ∷ []))
flat-insert h key ((k, l) ∷ m) o e = elim (Bool-cases (str_eq k key)) [
  | inl same ↦
      rw (same, sym (rw same at e)) (Perm.append_right (flat m) (perm_append_singleton h l))
  | inr other ↦ rw other (
      Perm.trans (Perm.append_left l (flat-insert h key m o (rw other at e)))
        (perm_middle l (flat m)))
]

flat-group :
    (hotkeys : List RegisteredHotkey) (m : List (String × List RegisteredHotkey))
    → Perm (flat (group hotkeys m)) (hotkeys ++ flat m)
unfolding group
flat-group [] m = Perm.refl (flat m)
flat-group (h ∷ hotkeys) m =
    Perm.trans (flat-group hotkeys (insert h.key (or_nil (lookup h.key m) ++ (h ∷ [])) m)) (
      Perm.trans (Perm.append_left hotkeys (flat-insert h h.key m (lookup h.key m) refl))
        (perm_middle hotkeys (flat m)))

-- The capture phase tries each of its hotkeys once: the order is that of all of them.
pub capture_order-perm :
    (special : List String) (hotkeys : List RegisteredHotkey)
    → Perm (capture_order special hotkeys) (for_phase special true hotkeys)
unfolding capture_order
capture_order-perm special hotkeys =
    Perm.trans (sort_by-perm no_lower (flat (group (for_phase special true hotkeys) []))) (
      rw (append-nil (for_phase special true hotkeys)) at
        (flat-group (for_phase special true hotkeys) []))
