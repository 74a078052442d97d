-- ===== src/SearchIndex/Filters.antt =====
-- Every answer of the finder passes the query's filters, the `search` of
-- frontend/src/search-index/searchIndex.store.ts.
use mathlib.Core.Path.{subst}
use yanta.Prelude.{
  ◌≤◌, Bool, true, false, not, ◌&&◌, ◌||◌, Bool-cases, Option, none, some, Option-cases, String,
  str_eq, List, [], ◌∷◌, map, length, length-take, any, filter, take, lookup, sort_by, All,
  All-take, All-filter, All-and, All-map, All-sort_by, arith, refl, sym, ap, ◌≡◌, ◌⊎◌, inl, inr,
  if◌then◌else◌,
}
use yanta.SearchIndex.Query.{
  ParsedQuery, IndexDoc, FinderItem, SearchResult, Texts, search_limit, passes_filters,
  to_finder_item, hit, collect, browse, newest_first, values, has_text, is_void, search, every,
  is_empty, doc_has_tag, doc_text,
}
use yanta.SearchIndex.Answers.{hits, collect-hits}

-- What the operators of a query ask of a document.
pub record Passes (t : Texts) (q : ParsedQuery) (doc : IndexDoc) : Type 0 where
  pub project :
      (q.projects ≡ [])
      ⊎ (any (λ p. str_eq p (t.lower (t.strip_at doc.project_alias))) q.projects ≡ true)
  pub tags : All (λ tag. doc_has_tag t doc tag ≡ true) q.tags
  pub phrases : All (λ p. t.includes (doc_text t doc) (t.lower p) ≡ true) q.phrases
  pub excludes : All (λ e. t.includes (doc_text t doc) (t.lower e) ≡ false) q.excludes

empty_or_any :
    {A : Type 0} (p : A → Bool) (l : List A)
    → (is_empty l || any p l) ≡ true
    → (l ≡ []) ⊎ (any p l ≡ true)
empty_or_any p [] h = inl refl
empty_or_any p (x ∷ l) h = inr h

or_false : (a b : Bool) → (a || b) ≡ false → (a ≡ false) × (b ≡ false)
or_false true b h = (h, ground arith)
or_false false b h = (refl, h)

eq_false_of_not : (a : Bool) → not a ≡ true → a ≡ false
eq_false_of_not true h = sym h
eq_false_of_not false h = refl

eq_true_of_not : (a : Bool) → not a ≡ false → a ≡ true
eq_true_of_not true h = refl
eq_true_of_not false h = sym h

any-none : {A : Type 0} (p : A → Bool) (l : List A) → any p l ≡ false → All (λ x. p x ≡ false) l
any-none p [] h = tt
any-none p (x ∷ l) h = let parts = or_false (p x) (any p l) h in (parts.0, any-none p l parts.1)

every-All :
    {A : Type 0} (p : A → Bool) (l : List A)
    → (is_empty l || every p l) ≡ true
    → All (λ x. p x ≡ true) l
every-All p [] h = tt
every-All p (x ∷ l) h =
    All-map (λ y. not (p y) ≡ false) (λ y. p y ≡ true) (λ y. eq_true_of_not (p y)) (x ∷ l)
      (any-none (λ y. not (p y)) (x ∷ l) (eq_false_of_not (any (λ y. not (p y)) (x ∷ l)) h))

none-All :
    {A : Type 0} (p : A → Bool) (l : List A)
    → (is_empty l || not (any p l)) ≡ true
    → All (λ x. p x ≡ false) l
none-All p [] h = tt
none-All p (x ∷ l) h = any-none p (x ∷ l) (eq_false_of_not (any p (x ∷ l)) h)

-- The four tests, with what spares each.
four_tests :
    (a b c d e f g h : Bool)
    → (if not a && not b
        then false
        else if not c && not d
        then false
        else if not e || not g
        then if not e && not f then false else if not g && h then false else true
        else true)
      ≡ true
    → ((a || b) ≡ true) × ((c || d) ≡ true) × ((e || f) ≡ true) × ((g || not h) ≡ true)
four_tests a b c d e f g h k = (ground arith, ground arith, ground arith, ground arith)

length-map : {A B : Type 0} (f : A → B) (l : List A) → length (map f l) ≡ length l
length-map f [] = refl
length-map f (x ∷ l) = omega (arith, length-map f l)

some_inj : (a b : IndexDoc) → some a ≡ some b → a ≡ b
some_inj a b e = cc

none_some : {A : Type 0} (b : IndexDoc) → none ≡ some b → A
none_some b e = elim (impossible e) [ ]
  where
    impossible : none ≡ some b → ⊥
    impossible p = cc

pub passes_filters-Passes :
    (t : Texts) (q : ParsedQuery) (doc : IndexDoc) → passes_filters t q doc ≡ true → Passes t q doc
unfolding passes_filters
passes_filters-Passes t q doc h =
    let mine = λ (p : String). str_eq p (t.lower (t.strip_at doc.project_alias)) in
    let inside = λ (p : String). t.includes (doc_text t doc) (t.lower p) in
    let k =
      four_tests (is_empty q.projects) (any mine q.projects) (is_empty q.tags)
        (every (doc_has_tag t doc) q.tags) (is_empty q.phrases) (every inside q.phrases)
        (is_empty q.excludes) (any inside q.excludes) h in
    record {
      project = empty_or_any mine q.projects k.0;
      tags = every-All (doc_has_tag t doc) q.tags k.1;
      phrases = every-All inside q.phrases k.2;
      excludes = none-All inside q.excludes k.3;
    }

module _ (t : Texts) (build_snippet : String → List String → String) (q : ParsedQuery)
    (docs : List (String × IndexDoc)) (P : IndexDoc → Type 0) where
  -- An item shows a document that passes the query and has the property `P`.
  abbrev pub IsAnswer : FinderItem → Type 0
  IsAnswer item = (doc : IndexDoc) × P doc × Passes t q doc × (item.key ≡ doc.id)

  to_finder_item-IsAnswer :
      (doc : IndexDoc) (terms : List String)
      → P doc
      → passes_filters t q doc ≡ true
      → IsAnswer (to_finder_item t build_snippet doc terms)
  unfolding to_finder_item
  to_finder_item-IsAnswer doc terms p h = (doc, p, passes_filters-Passes t q doc h, refl)

  lookup-P :
      (m : List (String × IndexDoc)) (k : String) (doc : IndexDoc)
      → All P (values m)
      → lookup k m ≡ some doc
      → P doc
  lookup-P [] k doc a e = cc
  lookup-P ((j, d) ∷ m) k doc (a, rest) e = elim (Bool-cases (str_eq j k)) [
    | inl b ↦ subst P (some_inj d doc (rw b at e)) a
    | inr b ↦ lookup-P m k doc rest (rw b at e)
  ]

  hit-passes :
      (k : String) (doc : IndexDoc)
      → hit t build_snippet q (lookup k docs) ≡ some doc
      → (lookup k docs ≡ some doc) × (passes_filters t q doc ≡ true)
  hit-passes k doc e = by_doc (lookup k docs) e
    where
      by_doc :
          (o : Option IndexDoc)
          → hit t build_snippet q o ≡ some doc
          → (o ≡ some doc) × (passes_filters t q doc ≡ true)
      by_doc none h = cc
      by_doc (some d) h = elim (Bool-cases (passes_filters t q d)) [
        | inl b ↦
            let same = some_inj d doc (rw b at h) in
            (ap (λ (x : IndexDoc). some x) same, subst (λ x. passes_filters t q x ≡ true) (same) b)
        | inr b ↦ none_some doc (rw b at h)
      ]

  hits-AreAnswers :
      All P (values docs) → (rs : List SearchResult) → All IsAnswer (hits t build_snippet q docs rs)
  hits-AreAnswers a [] = tt
  hits-AreAnswers a (r ∷ rs) = elim (Option-cases (hit t build_snippet q (lookup r.id docs))) [
    | inl e ↦ rw (e, hits) (hits-AreAnswers a rs)
    | inr (doc, e) ↦
        let found = hit-passes r.id doc e in
        rw (e, hits)
          (
            to_finder_item-IsAnswer doc r.terms (lookup-P docs r.id doc a found.0) found.1,
            hits-AreAnswers a rs,
          )
  ]

  map-AreAnswers :
      (terms : List String) (l : List IndexDoc)
      → All (λ doc. P doc × (passes_filters t q doc ≡ true)) l
      → All IsAnswer (map (λ doc. to_finder_item t build_snippet doc terms) l)
  map-AreAnswers terms [] h = tt
  map-AreAnswers terms (doc ∷ l) ((p, b), rest) =
      (to_finder_item-IsAnswer doc terms p b, map-AreAnswers terms l rest)

  browse-AreAnswers : All P (values docs) → All IsAnswer (browse t build_snippet q docs)
  unfolding browse
  browse-AreAnswers a =
      let Q = λ (doc : IndexDoc). P doc × (passes_filters t q doc ≡ true) in
      let matches = filter (passes_filters t q) (values docs) in
      map-AreAnswers q.phrases (take search_limit (sort_by (newest_first t) matches)) (
        All-take Q search_limit (sort_by (newest_first t) matches) (
          All-sort_by (newest_first t) Q matches (
            All-and P (λ doc. passes_filters t q doc ≡ true) matches (kept (values docs) a)
              (All-filter (passes_filters t q) (values docs)))))
    where
      pick :
          (b : Bool) (x : IndexDoc) (l : List IndexDoc)
          → P x
          → All P l
          → All P (if b then x ∷ l else l)
      pick true x l h hs = (h, hs)
      pick false x l h hs = hs

      kept : (l : List IndexDoc) → All P l → All P (filter (passes_filters t q) l)
      kept [] h = tt
      kept (x ∷ l) (h, hs) =
          pick (passes_filters t q x) x (filter (passes_filters t q) l) h (kept l hs)

  -- The finder answers any query with at most fifty items, each of which shows a document of the
  -- index that is of one of the query's projects, has all its tags, contains all its phrases and
  -- none of its excluded words. `P` is any property that the documents of the index have.
  pub search-AreAnswers :
      (index : String → List SearchResult)
      → All P (values docs)
      → All IsAnswer (search t build_snippet (some index) docs q)
        × (length (search t build_snippet (some index) docs q) ≤ search_limit)
  unfolding search browse
  search-AreAnswers index a = by_void (is_void t q) (has_text t q) refl
    where
      matches : List IndexDoc
      matches = sort_by (newest_first t) (filter (passes_filters t q) (values docs))

      found : List FinderItem
      found = hits t build_snippet q docs (index q.text)

      by_void :
          (void text : Bool)
          → has_text t q ≡ text
          → All IsAnswer (
              if void
              then []
              else if text
              then collect t build_snippet q docs (index q.text) []
              else browse t build_snippet q docs)
            × (length (
                  if void
                  then []
                  else if text
                  then collect t build_snippet q docs (index q.text) []
                  else browse t build_snippet q docs)
                ≤ search_limit)
      by_void true text e = (tt, omega arith)
      by_void false true e =
          rw (collect-hits t build_snippet q docs (index q.text) [] (omega arith)) (
            All-take IsAnswer search_limit found (hits-AreAnswers a (index q.text)),
            omega (arith, length-take search_limit found),
          )
      by_void false false e = (
        browse-AreAnswers a,
        omega (
          arith,
          length-map (λ doc. to_finder_item t build_snippet doc q.phrases)
              (take search_limit matches),
          length-take search_limit matches,
        ),
      )
