-- ===== src/SearchIndex/Parser/Phrases.antt =====
-- The phrases of a query that is made of items, frontend/src/search-index/queryParser.ts.
use mathlib.Core.List.{append_assoc}
use yanta.Prelude.{
  ℕ, ◌≤◌, ◌==◌, true, false, some, List, [], ◌∷◌, ◌++◌, length, length-append, drop, All,
  All-append, arith, refl, sym, ap, ◌∙◌, ◌≡◌,
}
use yanta.Snippet.{Units}
use yanta.SearchIndex.Parser.{
  project_operator, tag_operator, begins, until_quote, phrase_at, find_phrases, quoted,
  remove_first, without,
}

-- What a user writes: words, operators of the search page, the three filters, and phrases.
pub data Item : Type 0 where
  word operator project tag exclude phrase : Units → Item

abbrev pub show : Item → Units
show (word w) = w
show (operator w) = w
show (project p) = project_operator ++ p
show (tag t) = tag_operator ++ t
show (exclude e) = b'-' ∷ e
show (phrase p) = quoted p

-- The query, and what is left of it without its phrases.
abbrev pub printed : List Item → Units
printed [] = []
printed (i ∷ is) = show i ++ (b' ' ∷ printed is)

abbrev pub unphrased : Item → Units
unphrased (word w) = w
unphrased (operator w) = w
unphrased (project p) = project_operator ++ p
unphrased (tag t) = tag_operator ++ t
unphrased (exclude e) = b'-' ∷ e
unphrased (phrase p) = []

abbrev pub left_over : List Item → Units
left_over [] = []
left_over (i ∷ is) = unphrased i ++ (b' ' ∷ left_over is)

abbrev pub phrases_in : List Item → List Units
phrases_in [] = []
phrases_in (phrase p ∷ is) = p ∷ phrases_in is
phrases_in (word w ∷ is) = phrases_in is
phrases_in (operator w ∷ is) = phrases_in is
phrases_in (project p ∷ is) = phrases_in is
phrases_in (tag t ∷ is) = phrases_in is
phrases_in (exclude e ∷ is) = phrases_in is

abbrev IsUnquoted : Units → Type 0
IsUnquoted = All (λ x. (x == b'"') ≡ false)

-- A phrase has units, and no item has a quote inside.
abbrev pub IsQuotable : Item → Type 0
IsQuotable (word w) = IsUnquoted w
IsQuotable (operator w) = IsUnquoted w
IsQuotable (project p) = IsUnquoted p
IsQuotable (tag t) = IsUnquoted t
IsQuotable (exclude e) = IsUnquoted e
IsQuotable (phrase p) = IsUnquoted p × (1 ≤ length p)

find_phrases-unquoted :
    (s rest : Units) → IsUnquoted s → find_phrases 0 (s ++ rest) ≡ find_phrases 0 rest
unfolding find_phrases
find_phrases-unquoted [] rest h = refl
find_phrases-unquoted (x ∷ s) rest (h, hs) = rw h (find_phrases-unquoted s rest hs)

find_phrases-skip : (s rest : Units) → find_phrases (length s) (s ++ rest) ≡ find_phrases 0 rest
unfolding find_phrases
find_phrases-skip [] rest = refl
find_phrases-skip (x ∷ s) rest = find_phrases-skip s rest

until_quote-append : (p rest : Units) → IsUnquoted p → until_quote (p ++ (b'"' ∷ rest)) ≡ some p
unfolding until_quote
until_quote-append [] rest h = refl
until_quote-append (x ∷ p) rest (h, hs) = rw (h, until_quote-append p rest hs) refl

phrase_at-quoted :
    (x : ℕ) (p rest : Units)
    → IsUnquoted (x ∷ p)
    → phrase_at (((x ∷ p) ++ (b'"' ∷ [])) ++ rest) ≡ some (x ∷ p)
unfolding phrase_at
phrase_at-quoted x p rest h =
    rw append_assoc (rw (until_quote-append (x ∷ p) rest h, phrase_at) refl)

find_phrases-quoted :
    (p rest : Units)
    → IsUnquoted p
    → 1 ≤ length p
    → find_phrases 0 (quoted p ++ rest) ≡ p ∷ find_phrases 0 rest
unfolding find_phrases
find_phrases-quoted [] rest h n = ground arith
find_phrases-quoted (x ∷ p) rest h n =
    let inside = (x ∷ p) ++ (b'"' ∷ []) in
    rw (phrase_at-quoted x p rest h, find_phrases)
      (ap (λ l. (x ∷ p) ∷ l)
        (ap (λ k. find_phrases k (inside ++ rest)) (sym (length-append (x ∷ p) (b'"' ∷ [])))
          ∙ find_phrases-skip inside rest))

begins-append : (s rest : Units) → begins s (s ++ rest) ≡ true
begins-append [] rest = refl
begins-append (x ∷ s) rest = ground (arith, begins-append s rest)

drop-append : (s rest : Units) → drop (length s) (s ++ rest) ≡ rest
drop-append [] rest = refl
drop-append (x ∷ s) rest = drop-append s rest

remove_first-append :
    (p pre rest : Units)
    → IsUnquoted pre
    → remove_first (quoted p) (pre ++ (quoted p ++ rest)) ≡ pre ++ rest
unfolding remove_first
remove_first-append p [] rest h = rw (begins-append (quoted p) rest) (drop-append (quoted p) rest)
remove_first-append p (x ∷ pre) rest (h, hs) =
    let e : (b'"' == x) ≡ false = ground (arith, h) in
    rw e (ap (λ l. x ∷ l) (remove_first-append p pre rest hs))

-- One more unphrased piece, and its space, in front of the rest.
shift : (pre s rest : Units) → pre ++ (s ++ (b' ' ∷ rest)) ≡ (pre ++ (s ++ (b' ' ∷ []))) ++ rest
shift pre s rest = simp (append_assoc) refl

shift-IsUnquoted :
    (pre s : Units) → IsUnquoted pre → IsUnquoted s → IsUnquoted (pre ++ (s ++ (b' ' ∷ [])))
shift-IsUnquoted pre s h k =
    All-append (λ x. (x == b'"') ≡ false) pre (s ++ (b' ' ∷ [])) h
      (All-append (λ x. (x == b'"') ≡ false) s (b' ' ∷ []) k (refl, tt))

-- Where no phrase comes first: the piece stays, and the phrases are those of the rest.
without-piece :
    (pre s : Units) (ps : List Units) (rest rest' : Units)
    → IsUnquoted pre
    → IsUnquoted s
    → ((q : Units) → IsUnquoted q → without ps (q ++ rest) ≡ q ++ rest')
    → without ps (pre ++ (s ++ (b' ' ∷ rest))) ≡ pre ++ (s ++ (b' ' ∷ rest'))
without-piece pre s ps rest rest' h k later =
    ap (without ps) (shift pre s rest)
    ∙ later (pre ++ (s ++ (b' ' ∷ []))) (shift-IsUnquoted pre s h k)
    ∙ sym (shift pre s rest')

project-IsUnquoted : (p : Units) → IsUnquoted p → IsUnquoted (project_operator ++ p)
project-IsUnquoted p h = (refl, (refl, (refl, (refl, (refl, (refl, (refl, (refl, h))))))))

tag-IsUnquoted : (t : Units) → IsUnquoted t → IsUnquoted (tag_operator ++ t)
tag-IsUnquoted t h = (refl, (refl, (refl, (refl, h))))

-- Taking the phrases out of a query leaves the other items as they were.
pub without-printed :
    (is : List Item) (pre : Units)
    → All IsQuotable is
    → IsUnquoted pre
    → without (phrases_in is) (pre ++ printed is) ≡ pre ++ left_over is
unfolding without
without-printed [] pre q h = refl
without-printed (word w ∷ is) pre (qi, q) h =
    without-piece pre w (phrases_in is) (printed is) (left_over is) h qi
      (λ r k. without-printed is r q k)
without-printed (operator w ∷ is) pre (qi, q) h =
    without-piece pre w (phrases_in is) (printed is) (left_over is) h qi
      (λ r k. without-printed is r q k)
without-printed (project p ∷ is) pre (qi, q) h =
    without-piece pre (project_operator ++ p) (phrases_in is) (printed is) (left_over is) h
      (project-IsUnquoted p qi) (λ r k. without-printed is r q k)
without-printed (tag t ∷ is) pre (qi, q) h =
    without-piece pre (tag_operator ++ t) (phrases_in is) (printed is) (left_over is) h
      (tag-IsUnquoted t qi) (λ r k. without-printed is r q k)
without-printed (exclude e ∷ is) pre (qi, q) h =
    without-piece pre (b'-' ∷ e) (phrases_in is) (printed is) (left_over is) h (refl, qi)
      (λ r k. without-printed is r q k)
without-printed (phrase p ∷ is) pre (qi, q) h =
    ap (without (phrases_in is)) (remove_first-append p pre (b' ' ∷ printed is) h)
    ∙ without-piece pre [] (phrases_in is) (printed is) (left_over is) h tt
        (λ r k. without-printed is r q k)

pub find_phrases-printed :
    (is : List Item) → All IsQuotable is → find_phrases 0 (printed is) ≡ phrases_in is
unfolding find_phrases
find_phrases-printed [] q = refl
find_phrases-printed (word w ∷ is) (qi, q) =
    find_phrases-unquoted w (b' ' ∷ printed is) qi ∙ find_phrases-printed is q
find_phrases-printed (operator w ∷ is) (qi, q) =
    find_phrases-unquoted w (b' ' ∷ printed is) qi ∙ find_phrases-printed is q
find_phrases-printed (project p ∷ is) (qi, q) =
    find_phrases-unquoted (project_operator ++ p) (b' ' ∷ printed is) (project-IsUnquoted p qi)
    ∙ find_phrases-printed is q
find_phrases-printed (tag t ∷ is) (qi, q) =
    find_phrases-unquoted (tag_operator ++ t) (b' ' ∷ printed is) (tag-IsUnquoted t qi)
    ∙ find_phrases-printed is q
find_phrases-printed (exclude e ∷ is) (qi, q) =
    find_phrases-unquoted (b'-' ∷ e) (b' ' ∷ printed is) (refl, qi) ∙ find_phrases-printed is q
find_phrases-printed (phrase p ∷ is) ((qi, n), q) =
    find_phrases-quoted p (b' ' ∷ printed is) qi n ∙ ap (λ l. p ∷ l) (find_phrases-printed is q)
