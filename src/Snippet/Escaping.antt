-- ===== src/Snippet/Escaping.antt =====
-- The escaping of an excerpt, frontend/src/search-index/snippet.ts.
use mathlib.Core.List.{append_assoc}
use yanta.Prelude.{
  ℕ, ◌≤◌, ◌==◌, Bool, true, false, Bool-cases, [], ◌∷◌, ◌++◌, length, length-append, All,
  All-append, arith, refl, sym, ap, ◌∙◌, ◌≡◌, ◌≢◌, inl, inr, if◌then◌else◌,
}
use yanta.Snippet.{Units, replace_unit, amp, lt, gt, quot, apostrophe, escape_html}

-- What one unit becomes, by itself.
abbrev pub entity : ℕ → Units
entity x =
    if x == 38
    then amp
    else if x == 60
    then lt
    else if x == 62
    then gt
    else if x == 34
    then quot
    else if x == 39
    then apostrophe
    else x ∷ []

abbrev pub entities : Units → Units
entities [] = []
entities (x ∷ xs) = entity x ++ entities xs

replace_unit-append :
    (c : ℕ) (by s t : Units)
    → replace_unit c by (s ++ t) ≡ replace_unit c by s ++ replace_unit c by t
unfolding replace_unit
replace_unit-append c by [] t = refl
replace_unit-append c by (x ∷ s) t = elim (Bool-cases (x == c)) [
  | inl e ↦ rw e (
      ap (λ r. by ++ r) (replace_unit-append c by s t)
      ∙ sym (append_assoc by (replace_unit c by s) (replace_unit c by t)))
  | inr e ↦ rw e (ap (λ r. x ∷ r) (replace_unit-append c by s t))
]

escape_html-append : (s t : Units) → escape_html (s ++ t) ≡ escape_html s ++ escape_html t
unfolding escape_html
escape_html-append s t = simp (replace_unit-append) refl

escape_html-one : (x : ℕ) → escape_html (x ∷ []) ≡ entity x
unfolding escape_html replace_unit
escape_html-one x = ground arith

escape_html-nil : escape_html [] ≡ []
unfolding escape_html replace_unit
escape_html-nil = refl

-- Five replacements over the whole text escape each unit by itself: no unit of an entity is escaped
-- again.
pub escape_html-entities : (s : Units) → escape_html s ≡ entities s
escape_html-entities [] = escape_html-nil
escape_html-entities (x ∷ s) =
    escape_html-append (x ∷ []) s
    ∙ ap (λ r. r ++ escape_html s) (escape_html-one x)
    ∙ ap (λ r. entity x ++ r) (escape_html-entities s)

-- No unit that opens or closes a tag or an attribute.
abbrev pub IsSafe : ℕ → Type 0
IsSafe x = (x ≢ 60) × (x ≢ 62) × (x ≢ 34) × (x ≢ 39)

choose :
    (b : Bool) (u v : Units)
    → All IsSafe u
    → (b ≡ false → All IsSafe v)
    → All IsSafe (if b then u else v)
choose true u v p q = p
choose false u v p q = q refl

entity-IsSafe : (x : ℕ) → All IsSafe (entity x)
entity-IsSafe x = choose (x == 38) amp _ (omega arith) (λ a.
    choose (x == 60) lt _ (omega arith) (λ b. choose (x == 62) gt _ (omega arith) (λ c.
      choose (x == 34) quot _ (omega arith) (λ d.
        choose (x == 39) apostrophe (x ∷ []) (omega arith)
          (λ e. ((ground arith, ground arith, ground arith, ground arith), tt))))))

pub entities-IsSafe : (s : Units) → All IsSafe (entities s)
entities-IsSafe [] = tt
entities-IsSafe (x ∷ s) =
    All-append IsSafe (entity x) (entities s) (entity-IsSafe x) (entities-IsSafe s)

entity-nonempty : (x : ℕ) → 1 ≤ length (entity x)
entity-nonempty x = ground arith

pub length-entities-ge : (s : Units) → length s ≤ length (entities s)
length-entities-ge [] = omega arith
length-entities-ge (x ∷ s) =
    omega (arith, length-append (entity x) (entities s), entity-nonempty x, length-entities-ge s)
