-- ===== src/SearchIndex/Answers.antt =====
-- What the finder's answers are, the `search` of frontend/src/search-index/searchIndex.store.ts.
use mathlib.Core.List.{append_assoc, append-nil}
use yanta.Prelude.{
  ℕ, zero, suc, ◌≤◌, ◌<◌, leb, true, Bool-cases, none, some, Option-cases, String, List, [], ◌∷◌,
  ◌++◌, length, length-append, take, lookup, arith, refl, sym, ap, ◌∙◌, ◌≡◌, inl, inr,
  if◌then◌else◌,
}
use yanta.SearchIndex.Query.{
  ParsedQuery, IndexDoc, FinderItem, SearchResult, Texts, search_limit, to_finder_item, hit,
  collect, has_text, search,
}

take-short : {A : Type 0} (n : ℕ) (xs : List A) → length xs ≤ n → take n xs ≡ xs
take-short zero [] h = refl
take-short zero (x ∷ xs) h = ground arith
take-short (suc n) [] h = refl
take-short (suc n) (x ∷ xs) h = ap (λ l. x ∷ l) (take-short n xs (omega arith))

take-append : {A : Type 0} (n : ℕ) (xs ys : List A) → length xs ≡ n → take n (xs ++ ys) ≡ xs
take-append zero [] ys h = refl
take-append zero (x ∷ xs) ys h = ground arith
take-append (suc n) [] ys h = ground arith
take-append (suc n) (x ∷ xs) ys h = ap (λ l. x ∷ l) (take-append n xs ys (omega arith))

module _ (t : Texts) (build_snippet : String → List String → String) (q : ParsedQuery)
    (docs : List (String × IndexDoc)) where
  -- The items of all results that are hits, in the order of the results.
  abbrev pub hits : List SearchResult → List FinderItem
  hits [] = []
  hits (r ∷ rs) =
      let rest = hits rs in
      elim (hit t build_snippet q (lookup r.id docs)) [
        | none ↦ rest
        | some doc ↦ to_finder_item t build_snippet doc r.terms ∷ rest
      ]

  -- A push, given what the loop does after it.
  collect-pushed :
      (x : FinderItem) (rs : List SearchResult) (items : List FinderItem)
      → length items < search_limit
      → (length (items ++ (x ∷ [])) < search_limit
          → collect t build_snippet q docs rs (items ++ (x ∷ []))
            ≡ take search_limit ((items ++ (x ∷ [])) ++ hits rs))
      → (if leb search_limit (length (items ++ (x ∷ [])))
          then items ++ (x ∷ [])
          else collect t build_snippet q docs rs (items ++ (x ∷ [])))
        ≡ take search_limit (items ++ (x ∷ hits rs))
  collect-pushed x rs items h later =
      let next = items ++ (x ∷ []) in
      let n = length-append items (x ∷ []) in
      let back = ap (take search_limit) (append_assoc items (x ∷ []) (hits rs)) in
      elim (Bool-cases (leb search_limit (length next))) [
        | inl b ↦ rw b (sym (take-append search_limit next (hits rs) (ground (arith, n, b))) ∙ back)
        | inr b ↦ rw b (later (ground (arith, n, b)) ∙ back)
      ]

  pub collect-hits :
      (rs : List SearchResult) (items : List FinderItem)
      → length items < search_limit
      → collect t build_snippet q docs rs items ≡ take search_limit (items ++ hits rs)
  unfolding collect
  collect-hits [] items h =
      sym (ap (take search_limit) (append-nil items) ∙ take-short search_limit items (omega arith))
  collect-hits (r ∷ rs) items h = elim (Option-cases (hit t build_snippet q (lookup r.id docs))) [
    | inl e ↦ rw (e, collect, hits) (collect-hits rs items h)
    | inr (doc, e) ↦
        let x = to_finder_item t build_snippet doc r.terms in
        rw (e, collect, hits) (collect-pushed x rs items h (collect-hits rs (items ++ (x ∷ []))))
  ]

  -- Where a query has words, the finder answers with the first fifty of MiniSearch's results whose
  -- documents are known and pass the query's filters, in MiniSearch's order: leaving the loop early
  -- loses none of them.
  pub search-hits :
      (index : String → List SearchResult)
      → has_text t q ≡ true
      → search t build_snippet (some index) docs q ≡ take search_limit (hits (index q.text))
  unfolding search
  search-hits index h = rw h (collect-hits (index q.text) [] (omega arith))
