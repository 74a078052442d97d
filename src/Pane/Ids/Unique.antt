-- ===== src/Pane/Ids/Unique.antt =====
-- An id determines the counter that it was made from, so ids drawn one after the other differ.
use Prim.Native.Char.{Char, code}
use Prim.Native.String.{String, [], ◌∷◌, ◌++◌}
use mathlib.Core.Path.{◌≡◌, sym, ap, ◌∙◌}
use mathlib.Core.Logic.{◌≢◌}
use native.Mathlib.Omega.{arith}
use text.Mathlib.TextLemmas.{
  nil-append, cons-append, append_cancel_left, head-eq_of_cons-eq, tail-eq_of_cons-eq,
}
use yanta.Prelude.{ℕ, ◌+◌}
use yanta.Decimal.{show}
use yanta.Decimal.Laws.{read, read-show, NoDash, NoDash-show}
use yanta.Pane.Ids.{pane_id, generate_pane_id}

abbrev dash : Char
dash = "-"

dash_head : (c : Char) (r t : String) → "-" ++ r ≡ c ∷ t → dash ≡ c
dash_head c r t e = head-eq_of_cons-eq (sym (cons-append dash [] r) ∙ e)

-- What stands behind the first dash.
behind_dash : (s t r q : String) → NoDash s → NoDash t → s ++ ("-" ++ r) ≡ t ++ ("-" ++ q) → r ≡ q
behind_dash [] [] r q h k e = append_cancel_left "-" r q (sym (nil-append _) ∙ e ∙ nil-append _)
behind_dash [] (c ∷ t) r q h (k, _) e =
    absurd (k (sym (ap code (dash_head c r _ (sym (nil-append _) ∙ e ∙ cons-append _ _ _)))))
behind_dash (c ∷ s) [] r q (h, _) k e =
    absurd (h (sym (ap code (dash_head c q _ (sym (nil-append _) ∙ sym e ∙ cons-append _ _ _)))))
behind_dash (c ∷ s) (d ∷ t) r q (_, h) (_, k) e =
    behind_dash s t r q h k (tail-eq_of_cons-eq (sym (cons-append _ _ _) ∙ e ∙ cons-append _ _ _))

-- Ids made at any two times are equal only if they are made from the same counter.
pub pane_id-injective : (now then k m : ℕ) → pane_id now k ≡ pane_id then m → k ≡ m
unfolding pane_id
pane_id-injective now then k m e =
    sym (read-show k)
    ∙ ap read (
        behind_dash (show now) (show then) (show k) (show m) (NoDash-show now) (NoDash-show then)
          (append_cancel_left "pane-" _ _ e))
    ∙ read-show m

pub split_id-ne-leaf_id :
    (clock : ℕ → ℕ) (n : ℕ) → (generate_pane_id clock n).0 ≢ (generate_pane_id clock (n + 1)).0
unfolding generate_pane_id
split_id-ne-leaf_id clock n e = absurd (omega (arith, pane_id-injective _ _ (n + 1) (n + 1 + 1) e))
