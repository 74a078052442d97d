-- ===== src/Find/Plugin.antt =====
-- The state of the find plugin, frontend/src/editor/find/findPlugin.ts: the matches and the one that
-- is active.  Decorations are derived from these two and left out.
use yanta.Prelude.{
  ◌≡◌, refl, sym, ap, ◌∙◌, ℕ, zero, suc, ◌+◌, ◌-◌, ◌%◌, ◌<◌, Bool, true, false, Option, none, some,
  List, [], ◌∷◌, length, if◌then◌else◌, arith,
}
use yanta.Find.{FindMatch, Textblock}

-- The integers, `negsuc n` being `-(n + 1)`.
pub data ℤ : Type 0 where
  pos : ℕ → ℤ
  negsuc : ℕ → ℤ

-- `((index % length) + length) % length`, where the remainder has the sign of `index`.
unfoldable pub wrap_index : ℤ → ℕ → ℤ
wrap_index index zero = negsuc 0
wrap_index (pos i) (suc n) = pos ((i % suc n + suc n) % suc n)
wrap_index (negsuc i) (suc n) = pos ((suc n - suc i % suc n) % suc n)

pub record FindPluginState : Type 0 where
  pub query : List ℕ
  pub case_sensitive : Bool
  pub matches : List FindMatch
  pub active_index : ℤ

abbrev pub empty_state : FindPluginState
empty_state = record { query = []; case_sensitive = false; matches = []; active_index = negsuc 0 }

pub record FindMeta : Type 0 where
  pub query : Option (List ℕ)
  pub case_sensitive : Option Bool
  pub active_index : Option ℤ

-- A transaction: the document after it, whether it changed that, and the plugin's part of it.
pub record Transaction : Type 0 where
  pub doc : List Textblock
  pub doc_changed : Bool
  pub meta : Option FindMeta

abbrev pub given {ℓ} : {A : Type ℓ} → Option A → A → A
given none a = a
given (some b) a = b

abbrev pub only_index : FindMeta → Option ℤ
only_index meta = elim meta.query [
  | some q ↦ none
  | none ↦ elim meta.case_sensitive [ some b ↦ none | none ↦ meta.active_index ]
]

-- `find` is `findMatches`, on the document, the text and whether case matters.
module _ (find : List Textblock → List ℕ → Bool → List FindMatch) where
  abbrev pub found_in : List Textblock → List ℕ → Bool → List FindMatch
  found_in doc [] case_sensitive = []
  found_in doc (c ∷ query) case_sensitive = find doc (c ∷ query) case_sensitive

  abbrev pub compute_state : List Textblock → List ℕ → Bool → ℤ → FindPluginState
  compute_state doc query case_sensitive preferred_index = record {
    query = query;
    case_sensitive = case_sensitive;
    matches = found_in doc query case_sensitive;
    active_index = wrap_index preferred_index (length (found_in doc query case_sensitive));
  }

  -- The first argument is the query of the state.
  abbrev pub search_again : List ℕ → Transaction → FindPluginState → FindPluginState
  search_again [] tr prev = prev
  search_again (c ∷ query) tr prev =
      compute_state tr.doc (c ∷ query) prev.case_sensitive prev.active_index

  -- The first argument is the index, where `meta` has nothing else.
  abbrev pub apply_meta : Option ℤ → Transaction → FindMeta → FindPluginState → FindPluginState
  apply_meta (some i) tr meta prev = record prev {
    active_index = wrap_index i (length prev.matches);
  }
  apply_meta none tr meta prev =
      compute_state tr.doc (given meta.query prev.query)
        (given meta.case_sensitive prev.case_sensitive) (given meta.active_index (pos 0))

  abbrev pub apply_to : Option FindMeta → Transaction → FindPluginState → FindPluginState
  apply_to (some meta) tr prev = apply_meta (only_index meta) tr meta prev
  apply_to none tr prev = if tr.doc_changed then search_again prev.query tr prev else prev

  unfoldable pub apply : Transaction → FindPluginState → FindPluginState
  apply tr prev = apply_to tr.meta tr prev

  -- The active index is that of a match, or -1 where there is none.
  abbrev pub InRange : ℤ → ℕ → Type 0
  InRange index zero = index ≡ negsuc 0
  InRange index (suc n) = (i : ℕ) × (index ≡ pos i) × (i < suc n)

  wrap_index-InRange : (index : ℤ) (n : ℕ) → InRange (wrap_index index n) n
  unfolding wrap_index
  wrap_index-InRange index zero = refl
  wrap_index-InRange (pos i) (suc n) = ((i % suc n + suc n) % suc n, refl, omega arith)
  wrap_index-InRange (negsuc i) (suc n) = ((suc n - suc i % suc n) % suc n, refl, omega arith)

  -- The matches are those of the document, and the active one is among them.
  pub record IsCurrent (doc : List Textblock) (s : FindPluginState) : Type 0 where
    pub found : s.matches ≡ found_in doc s.query s.case_sensitive
    pub in_range : InRange s.active_index (length s.matches)

  compute_state-IsCurrent :
      (doc : List Textblock) (query : List ℕ) (case_sensitive : Bool) (index : ℤ)
      → IsCurrent doc (compute_state doc query case_sensitive index)
  compute_state-IsCurrent doc query case_sensitive index = record {
    found = refl;
    in_range = wrap_index-InRange index (length (found_in doc query case_sensitive));
  }

  -- The document is the former one unless the transaction changed it, and none both changes it and
  -- only moves to another match.
  pub record Follows (doc : List Textblock) (tr : Transaction) : Type 0 where
    pub unchanged : tr.doc_changed ≡ false → tr.doc ≡ doc
    pub moves :
        (meta : FindMeta) (i : ℤ) → tr.meta ≡ some meta → only_index meta ≡ some i → tr.doc ≡ doc

  -- The states of the plugin with the document that each was computed for.
  pub data Reached : List Textblock → FindPluginState → Type 0 where
    init : {doc : List Textblock} → Reached doc empty_state
    step :
        {doc : List Textblock} {s : FindPluginState}
        → Reached doc s
        → (tr : Transaction) → Follows doc tr
        → Reached tr.doc (apply tr s)

  IsCurrent-moved :
      (doc later : List Textblock) (s : FindPluginState)
      → later ≡ doc
      → IsCurrent doc s
      → IsCurrent later s
  IsCurrent-moved doc later s e h = rw e h

  search_again-IsCurrent :
      (doc : List Textblock) (tr : Transaction) (s : FindPluginState) (query : List ℕ)
      → s.query ≡ query
      → IsCurrent doc s
      → IsCurrent tr.doc (search_again query tr s)
  search_again-IsCurrent doc tr s [] e h = record {
    found =
        h.found
        ∙ ap (λ q. found_in doc q s.case_sensitive) e
        ∙ sym (ap (λ q. found_in tr.doc q s.case_sensitive) e);
    in_range = h.in_range;
  }
  search_again-IsCurrent doc tr s (c ∷ query) e h =
      compute_state-IsCurrent tr.doc (c ∷ query) s.case_sensitive s.active_index

  searched-IsCurrent :
      (doc : List Textblock) (tr : Transaction) (s : FindPluginState) (changed : Bool)
      → (changed ≡ false → tr.doc ≡ doc)
      → IsCurrent doc s
      → IsCurrent tr.doc (if changed then search_again s.query tr s else s)
  searched-IsCurrent doc tr s true f h = search_again-IsCurrent doc tr s s.query refl h
  searched-IsCurrent doc tr s false f h = IsCurrent-moved doc tr.doc s (f refl) h

  apply_meta-IsCurrent :
      (doc : List Textblock) (tr : Transaction) (meta : FindMeta) (s : FindPluginState)
      (o : Option ℤ)
      → ((i : ℤ) → o ≡ some i → tr.doc ≡ doc)
      → IsCurrent doc s
      → IsCurrent tr.doc (apply_meta o tr meta s)
  apply_meta-IsCurrent doc tr meta s (some i) f h =
      IsCurrent-moved doc tr.doc (apply_meta (some i) tr meta s) (f i refl)
        (record { found = h.found; in_range = wrap_index-InRange i (length s.matches) })
  apply_meta-IsCurrent doc tr meta s none f h =
      compute_state-IsCurrent tr.doc (given meta.query s.query)
        (given meta.case_sensitive s.case_sensitive) (given meta.active_index (pos 0))

  apply_to-IsCurrent :
      (doc : List Textblock) (tr : Transaction) (s : FindPluginState) (o : Option FindMeta)
      → tr.meta ≡ o
      → Follows doc tr
      → IsCurrent doc s
      → IsCurrent tr.doc (apply_to o tr s)
  apply_to-IsCurrent doc tr s none e f h = searched-IsCurrent doc tr s tr.doc_changed f.unchanged h
  apply_to-IsCurrent doc tr s (some meta) e f h =
      apply_meta-IsCurrent doc tr meta s (only_index meta) (λ i. f.moves meta i e) h

  apply-IsCurrent :
      (doc : List Textblock) (tr : Transaction) (s : FindPluginState)
      → Follows doc tr
      → IsCurrent doc s
      → IsCurrent tr.doc (apply tr s)
  unfolding apply
  apply-IsCurrent doc tr s f h = apply_to-IsCurrent doc tr s tr.meta refl f h

  -- In every state that the plugin reaches, its matches are those that a search of the document finds,
  -- and the active index is that of one of them, or -1 where there is none; where no transaction both
  -- changes the document and only moves to another match.
  pub Reached-IsCurrent :
      {doc : List Textblock} {s : FindPluginState} → Reached doc s → IsCurrent doc s
  Reached-IsCurrent init = record { found = refl; in_range = refl }
  Reached-IsCurrent (step {doc} {s} r tr f) = apply-IsCurrent doc tr s f (Reached-IsCurrent r)
