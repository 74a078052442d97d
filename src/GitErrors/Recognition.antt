-- ===== src/GitErrors/Recognition.antt =====
-- Which errors are recognised, and by which rule.
use yanta.Prelude.{
  ◌≡◌, refl, sym, ap, ◌∙◌, Bool, true, false, none, some, List, [], ◌∷◌, ◌++◌, String, find, All,
  if◌then◌else◌, Bool-cases, inl, inr, str_eq, ne_of_str_eq, ◌↔◌, arith,
}
use yanta.GitErrors.{Rule, rules, matches, report, parse_git_error}

find-none : {A : Type 0} (p : A → Bool) (xs : List A) → find p xs ≡ none → All (λ x. p x ≡ false) xs
find-none p [] e = tt
find-none p (x ∷ xs) e = elim (Bool-cases (p x)) [
  | inl here ↦ ground (arith, here)
  | inr later ↦ (later, find-none p xs (ground (arith, later)))
]

find-some : {A : Type 0} (p : A → Bool) (xs : List A) → All (λ x. p x ≡ false) xs → find p xs ≡ none
find-some p [] h = refl
find-some p (x ∷ xs) (no_match, h) = rw (no_match, find-some p xs h) refl

-- No rule is of the kind of unrecognised errors.
find-recognised :
    (p : Rule → Bool) (rs : List Rule)
    → All (λ r. str_eq r.kind "UNKNOWN" ≡ false) rs
    → (text : String) → (report text (find p rs)).kind ≡ "UNKNOWN"
    → find p rs ≡ none
find-recognised p [] h text e = refl
find-recognised p (r ∷ rs) (other, h) text e = elim (Bool-cases (p r)) [
  | inl here ↦ absurd (
      ne_of_str_eq r.kind "UNKNOWN" other
        (ap (λ b. (report text (if b then some r else find p rs)).kind) (sym here) ∙ e))
  | inr later ↦ rw later (
      find-recognised p rs h text
        (ap (λ b. (report text (if b then some r else find p rs)).kind) (sym later) ∙ e))
]

-- An error is of unknown kind exactly when no marker of any rule is in its text.
pub parse_git_error-unknown_iff :
    (text : String)
    → ((parse_git_error text).kind ≡ "UNKNOWN") ↔ All (λ r. matches text r ≡ false) rules
unfolding parse_git_error
parse_git_error-unknown_iff text = (
  λ e. find-none (matches text) rules (find-recognised (matches text) rules all_recognised text e),
  λ h. ap (λ o. (report text o).kind) (find-some (matches text) rules h),
)
  where
    all_recognised : All (λ r. str_eq r.kind "UNKNOWN" ≡ false) rules
    all_recognised =
        (refl, (refl, (refl, (refl, (refl, (refl, (refl, (refl, (refl, (refl, tt))))))))))

find_first :
    {A : Type 0} (p : A → Bool) (xs : List A) (x : A) (ys : List A)
    → All (λ y. p y ≡ false) xs
    → p x ≡ true
    → find p (xs ++ (x ∷ ys)) ≡ some x
find_first p [] x ys h e = rw e refl
find_first p (y ∷ xs) x ys (no_match, h) e = rw (no_match, find_first p xs x ys h e) refl

-- Where the rules before a rule do not match and it does, the error is reported by that rule: the
-- earlier of two that match wins.
pub parse_git_error-first :
    (text : String) (before : List Rule) (rule : Rule) (after : List Rule)
    → rules ≡ before ++ (rule ∷ after)
    → All (λ r. matches text r ≡ false) before
    → matches text rule ≡ true
    → parse_git_error text ≡ report text (some rule)
unfolding parse_git_error
parse_git_error-first text before rule after e h m =
    ap (λ rs. report text (find (matches text) rs)) e
    ∙ ap (report text) (find_first (matches text) before rule after h m)
