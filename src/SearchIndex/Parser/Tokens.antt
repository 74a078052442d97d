-- ===== src/SearchIndex/Parser/Tokens.antt =====
-- The tokens of a query that is made of items, and which branch takes each,
-- frontend/src/search-index/queryParser.ts.
use mathlib.Core.List.{append_assoc, append-nil}
use yanta.Prelude.{
  ℕ, ◌≤◌, ◌==◌, leb, ltb, Bool, true, false, ◌&&◌, ◌||◌, List, [], ◌∷◌, ◌++◌, length, All, arith,
  refl, ap, ◌∙◌, ◌≡◌,
}
use yanta.Snippet.{Units}
use yanta.SearchIndex.Parser.{
  ParsedParts, project_operator, tag_operator, title_operator, body_operator, begins, strip, emit,
  tokens, add_project, add_tag, add_token,
}
use yanta.SearchIndex.Parser.Phrases.{Item, unphrased, left_over}

abbrev pub tokens_in : List Item → List Units
tokens_in [] = []
tokens_in (i ∷ is) = emit (unphrased i) (tokens_in is)

tokens-append :
    (is_space : ℕ → Bool) (current s rest : Units)
    → is_space b' ' ≡ true
    → All (λ x. is_space x ≡ false) s
    → tokens is_space current (s ++ (b' ' ∷ rest)) ≡ emit (current ++ s) (tokens is_space [] rest)
unfolding tokens
tokens-append is_space current [] rest e h = rw (e, append-nil) refl
tokens-append is_space current (x ∷ s) rest e (h, hs) = rw h (
    tokens-append is_space (current ++ (x ∷ [])) s rest e hs
    ∙ ap (λ c. emit c (tokens is_space [] rest)) (append_assoc current (x ∷ []) s))

-- Where no item but a phrase has white space inside, the tokens are the items.
pub tokens-left_over :
    (is_space : ℕ → Bool) (is : List Item)
    → is_space b' ' ≡ true
    → All (λ i. All (λ x. is_space x ≡ false) (unphrased i)) is
    → tokens is_space [] (left_over is) ≡ tokens_in is
unfolding tokens
tokens-left_over is_space [] e h = refl
tokens-left_over is_space (i ∷ is) e (h, hs) =
    tokens-append is_space [] (unphrased i) (left_over is) e h
    ∙ ap (emit (unphrased i)) (tokens-left_over is_space is e hs)

-- A unit that `toLowerCase` keeps wherever it stands: "-", ":" and the letters from a to z.
abbrev pub is_plain : ℕ → Bool
is_plain x = x == b'-' || (x == b':' || (leb b'a' x && leb x b'z'))

tag-not_project : (s : Units) → begins tag_operator s ≡ true → begins project_operator s ≡ false
tag-not_project [] h = ground arith
tag-not_project (x ∷ s) h = ground (arith, h)

-- What starts with "-" is none of the operators.
minus-no_operator :
    (s : Units)
    → begins (b'-' ∷ []) s ≡ true
    → (begins project_operator s ≡ false)
      × (begins tag_operator s ≡ false)
      × ((begins title_operator s || begins body_operator s) ≡ false)
minus-no_operator [] h = ground arith
minus-no_operator (x ∷ s) h = (ground (arith, h), ground (arith, h), ground (arith, h))

module _ (lower : Units → Units)
    (keeps : (op t : Units)
      → All (λ x. is_plain x ≡ true) op
      → begins op (lower (op ++ t)) ≡ true) where
  pub add_token-project :
      (p : Units) (q : ParsedParts)
      → add_token lower (project_operator ++ p) q ≡ add_project lower (strip b'@' p) q
  unfolding add_token
  add_token-project p q =
      rw
        (keeps project_operator p
          (refl, (refl, (refl, (refl, (refl, (refl, (refl, (refl, tt)))))))))
        refl

  pub add_token-tag :
      (t : Units) (q : ParsedParts)
      → add_token lower (tag_operator ++ t) q ≡ add_tag lower (strip b'#' t) q
  unfolding add_token
  add_token-tag t q =
      let e = keeps tag_operator t (refl, (refl, (refl, (refl, tt)))) in
      rw (tag-not_project (lower (tag_operator ++ t)) e, e) refl

  pub add_token-exclude :
      (e : Units) (q : ParsedParts)
      → 1 ≤ length e
      → add_token lower (b'-' ∷ e) q ≡ record q { excludes = q.excludes ++ (e ∷ []) }
  unfolding add_token
  add_token-exclude e q n =
      let h = minus-no_operator (lower (b'-' ∷ e)) (keeps (b'-' ∷ []) e (refl, tt)) in
      let long : ltb 1 (length (b'-' ∷ e)) ≡ true = ground arith in rw (h.0, h.1, h.2, long) refl
