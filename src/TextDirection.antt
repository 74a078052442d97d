-- ===== src/TextDirection.antt =====
-- The direction of a block of text, frontend/src/editor/extensions/rtl/textDirection.ts.  A text is the
-- list of its code units; `is_blank` says that the browser's `trim` leaves nothing of it.
pub mod Settled
pub mod Examples
use yanta.Prelude.{
  ℕ, ◌+◌, ◌*◌, ◌==◌, leb, Bool, true, false, ◌&&◌, ◌||◌, any, Option, none, some, List, [], ◌∷◌,
  if◌then◌else◌,
}

pub data Direction : Type 0 where
  ltr rtl : Direction

abbrev pub rtl_ranges : List (ℕ × ℕ)
rtl_ranges =
    (0x0600, 0x06ff)
    ∷ (0x0700, 0x074f)
    ∷ (0x0750, 0x077f)
    ∷ (0x0780, 0x07bf)
    ∷ (0x07c0, 0x07ff)
    ∷ (0x0800, 0x083f)
    ∷ (0x0840, 0x085f)
    ∷ (0x08a0, 0x08ff)
    ∷ (0xfb50, 0xfdff)
    ∷ (0xfe70, 0xfeff)
    ∷ []

abbrev pub is_between : ℕ → ℕ → ℕ → Bool
is_between low high c = leb low c && leb c high

unfoldable pub is_rtl_char : ℕ → Bool
is_rtl_char c = any (λ r. is_between r.0 r.1 c) rtl_ranges

abbrev pub is_skipped : ℕ → Bool
is_skipped c =
    (c == 0x0020)
    || (is_between 0x0021 0x0040 c
        || (is_between 0x0030 0x0039 c
            || (is_between 0x005b 0x0060 c || is_between 0x007b 0x007e c)))

unfoldable pub scan : List ℕ → Option Direction
scan [] = none
scan (c ∷ text) =
    let later = scan text in
    if is_skipped c then later else if is_rtl_char c then some rtl else some ltr

-- The characters that count, and the right-to-left ones of them.
abbrev pub is_counted : ℕ → Bool
is_counted c =
    if c == 0x0020
    then false
    else if is_between 0x0021 0x002f c
    then false
    else if is_between 0x003a 0x0040 c
    then false
    else if is_between 0x005b 0x0060 c
    then false
    else if is_between 0x007b 0x007e c
    then false
    else true

unfoldable pub count_chars : List ℕ → ℕ × ℕ
count_chars [] = (0, 0)
count_chars (c ∷ text) =
    let rest = count_chars text in
    if is_counted c
    then (if is_rtl_char c then (rest.0 + 1, rest.1 + 1) else (rest.0, rest.1 + 1))
    else rest

-- `rtlCount / totalChars >= 0.3`, cleared of the denominators.
unfoldable pub has_significant_rtl : List ℕ → Bool
has_significant_rtl text =
    if (count_chars text).1 == 0
    then false
    else leb (3 * (count_chars text).1) (10 * (count_chars text).0)

abbrev pub same_direction : Option Direction → Direction → Bool
same_direction none d = false
same_direction (some ltr) ltr = true
same_direction (some rtl) rtl = true
same_direction (some ltr) rtl = false
same_direction (some rtl) ltr = false

-- What to do with the attribute `dir`.
pub data Change : Type 0 where
  keep clear : Change
  set : Direction → Change

abbrev pub clear_if_there : Option Direction → Change
clear_if_there none = keep
clear_if_there (some d) = clear

abbrev pub set_if_other : Option Direction → Option Direction → Change
set_if_other none current = keep
set_if_other (some d) current = if same_direction current d then keep else set d

module _ (is_blank : List ℕ → Bool) where
  unfoldable pub detect_text_direction : List ℕ → Option Direction
  detect_text_direction text = if is_blank text then none else scan text

  unfoldable pub resolve_block_dir : List ℕ → Option Direction → Change
  resolve_block_dir text current_dir =
      if is_blank text
      then clear_if_there current_dir
      else set_if_other (detect_text_direction text) current_dir

-- The attribute after the change.
abbrev pub apply_change : Change → Option Direction → Option Direction
apply_change keep dir = dir
apply_change clear dir = none
apply_change (set d) dir = some d
