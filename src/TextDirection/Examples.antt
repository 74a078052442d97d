-- ===== src/TextDirection/Examples.antt =====
-- An Arabic letter, and a Hebrew one, whose block is in no range.
use yanta.Prelude.{ℕ, ◌≡◌, refl, Bool, false, some, List, [], ◌∷◌}
use yanta.TextDirection.{ltr, rtl, is_rtl_char, scan, detect_text_direction}

abbrev never_blank : List ℕ → Bool
never_blank text = false

arabic : detect_text_direction never_blank (0x0020 ∷ 0x0627 ∷ []) ≡ some rtl
unfolding detect_text_direction scan is_rtl_char
arabic = refl

-- Alef, of the Hebrew block.
hebrew : detect_text_direction never_blank (0x05d0 ∷ []) ≡ some ltr
unfolding detect_text_direction scan is_rtl_char
hebrew = refl
