-- ===== src/TextDirection/Settled.antt =====
-- A block's direction is settled by one scan.
use yanta.Prelude.{ℕ, ◌≡◌, refl, Bool, true, Bool-cases, inl, inr, Option, none, some, List}
use yanta.TextDirection.{
  Direction, ltr, rtl, same_direction, keep, clear_if_there, set_if_other, detect_text_direction,
  resolve_block_dir, apply_change,
}

clear_if_there_settled :
    (dir : Option Direction) → clear_if_there (apply_change (clear_if_there dir) dir) ≡ keep
clear_if_there_settled none = refl
clear_if_there_settled (some d) = refl

same_direction_refl : (d : Direction) → same_direction (some d) d ≡ true
same_direction_refl ltr = refl
same_direction_refl rtl = refl

set_if_other_settled :
    (detected dir : Option Direction)
    → set_if_other detected (apply_change (set_if_other detected dir) dir) ≡ keep
set_if_other_settled none dir = refl
set_if_other_settled (some d) dir = elim (Bool-cases (same_direction dir d)) [
  | inl same ↦ rw (same, same) refl
  | inr other ↦ rw (other, same_direction_refl d) refl
]

-- After a scan has changed a block's direction, another scan of the same text changes nothing.
pub resolve_block_dir_settled :
    (is_blank : List ℕ → Bool) (text : List ℕ) (dir : Option Direction)
    → resolve_block_dir is_blank text (apply_change (resolve_block_dir is_blank text dir) dir)
      ≡ keep
unfolding resolve_block_dir
resolve_block_dir_settled is_blank text dir = elim (Bool-cases (is_blank text)) [
  | inl blank ↦ rw blank (clear_if_there_settled dir)
  | inr written ↦ rw written (set_if_other_settled (detect_text_direction is_blank text) dir)
]
