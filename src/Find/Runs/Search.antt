-- ===== src/Find/Runs/Search.antt =====
-- The search goes through the runs of a document.
use yanta.Prelude.{
  ◌≡◌, refl, sym, ap, ◌∙◌, inl, inr, ℕ, ◌+◌, ◌<◌, leb, Bool, true, false, Option, none, some,
  Bool-cases, List, [], ◌∷◌, ◌++◌, length, All, arith,
}
use mathlib.Core.List.{append_assoc, append-nil}
use yanta.Find.{
  FindMatch, TextSegment, Inline, text_node, atom, Textblock, find_all, Run, fold_case, run_matches,
  flush, add_segment, find_in_children, find_in_blocks, find_matches,
}
use yanta.Find.Occurrences.{Leftmost, done, find_all_lem}
use yanta.Find.Runs.{
  TextRun, close, extend, runs_from, runs_of, AdjacentFrom, Adjacent, shifted, InRuns, no_runs,
  one_run, AllKeepLength,
}
use yanta.Find.Runs.Positions.{
  Places, Places-first, Places-append, matches_at-shifted, too_short, AdjacentFrom-past_empty,
  AdjacentFrom-longer,
}

module _ (lower : List ℕ → List ℕ) (case_sensitive : Bool) (d : ℕ) (needle : List ℕ) where
  run_matches_fitting :
      (start : ℕ) (t : List ℕ) (segments : List TextSegment)
      → Places start segments
      → (found : List ℕ) → leb (length (d ∷ needle)) (length t) ≡ true
      → find_all (d ∷ needle) (fold_case lower case_sensitive t) ≡ some found
      → run_matches lower case_sensitive (d ∷ needle) t segments
        ≡ some (shifted (length (d ∷ needle)) start found)
  unfolding run_matches
  run_matches_fitting start t segments h found fits e =
      rw (fits, e) (ap some (matches_at-shifted (length (d ∷ needle)) start segments h found))

  run_matches_short :
      (t : List ℕ) (segments : List TextSegment)
      → leb (length (d ∷ needle)) (length t) ≡ false
      → run_matches lower case_sensitive (d ∷ needle) t segments ≡ some []
  unfolding run_matches
  run_matches_short t segments short = rw short refl

  run_matches_lem :
      (start : ℕ) (t : List ℕ) (segments : List TextSegment)
      → Places start segments
      → length (fold_case lower case_sensitive t) ≡ length t
      → (found : List ℕ) × (run_matches lower case_sensitive (d ∷ needle) t segments
          ≡ some (shifted (length (d ∷ needle)) start found))
        × Leftmost (d ∷ needle) (fold_case lower case_sensitive t) 0 found
  run_matches_lem start t segments h k =
      let hay = fold_case lower case_sensitive t in
      elim (Bool-cases (leb (length (d ∷ needle)) (length t))) [
        | inl fits ↦
            let all = find_all_lem d needle hay in
            (all.0, run_matches_fitting start t segments h all.0 fits all.1, all.2)
        | inr short ↦ (
          [],
          run_matches_short t segments short,
          done (λ j l. too_short (d ∷ needle) hay (shorter short) j),
        )
      ]
    where
      shorter :
          leb (length (d ∷ needle)) (length t) ≡ false
          → length (fold_case lower case_sensitive t) < length (d ∷ needle)
      shorter short = ground (arith, k)

  -- What the variables hold for the run that is going on, if there is one.
  abbrev Tracks : Run → Option TextRun → Type 0
  Tracks r none = (r.text ≡ []) × (r.segments ≡ [])
  Tracks r (some run) = (r.text ≡ run.text) × Places run.start r.segments

  abbrev fresh : List FindMatch → Run
  fresh ms = record { text = []; segments = []; matches = ms }

  flush-some :
      (r : Run) (found : List FindMatch)
      → run_matches lower case_sensitive (d ∷ needle) r.text r.segments ≡ some found
      → flush lower case_sensitive (d ∷ needle) r ≡ some (fresh (r.matches ++ found))
  unfolding flush
  flush-some r found e = rw (e, flush) refl

  -- Flushing adds the matches of the run that is going on.
  abbrev Flushed : Run → Option TextRun → List FindMatch → Type 0
  Flushed r current ms =
      (flush lower case_sensitive (d ∷ needle) r ≡ some (fresh (r.matches ++ ms)))
      × ((runs : List TextRun) (rest : List FindMatch)
          → InRuns lower case_sensitive d needle runs rest
          → InRuns lower case_sensitive d needle (close current runs) (ms ++ rest))

  flush_lem :
      (r : Run) (current : Option TextRun)
      → Tracks r current
      → AllKeepLength lower case_sensitive (close current [])
      → (ms : List FindMatch) × Flushed r current ms
  flush_lem r none (e, e') k = (
    [],
    (
      flush-some r [] (run_matches_short r.text r.segments (ground (arith, ap length e))),
      λ runs rest k. k,
    ),
  )
  flush_lem r (some run) (e, h) (k, k') =
      let found = run_matches_lem run.start run.text r.segments h k in
      let ms = shifted (length (d ∷ needle)) run.start found.0 in
      (
        ms,
        (
          flush-some r ms
              (ap (λ t. run_matches lower case_sensitive (d ∷ needle) t r.segments) e ∙ found.1),
          λ runs rest l. one_run run found.0 found.2 l,
        ),
      )

  -- Where the text of the run that is going on ends.
  abbrev behind : Option TextRun → Option ℕ
  behind none = none
  behind (some run) = some (run.start + length run.text)

  Tracks-add_segment :
      (pos offset : ℕ) (t : List ℕ) (r : Run) (run : TextRun)
      → Tracks r (some run)
      → pos + 1 + offset ≡ run.start + length run.text
      → Tracks (add_segment pos offset t r) (some (extend (pos + 1 + offset) t (some run)))
  Tracks-add_segment pos offset t r run (e, h) p = (
    ap (λ s. s ++ t) e,
    Places-append run.start (pos + 1 + offset) (length r.text) r.segments
        (p ∙ ap (λ s. run.start + length s) (sym e)) h,
  )

  Tracks-first_segment :
      (pos offset : ℕ) (t : List ℕ) (r : Run)
      → Tracks r none
      → Tracks (add_segment pos offset t r) (some (extend (pos + 1 + offset) t none))
  Tracks-first_segment pos offset t r (e, e') =
      (ap (λ s. s ++ t) e, first (add_segment pos offset t r).segments (cc (e, e')))
    where
      first :
          (segments : List TextSegment)
          → segments ≡ record { start_idx = 0; base_pos = pos + 1 + offset } ∷ []
          → Places (pos + 1 + offset) segments
      first segments e idx = rw e (Places-first (pos + 1 + offset) idx)

  abbrev Found : ℕ → List Inline → Run → Option TextRun → Type 0
  Found pos children r current =
      (ms : List FindMatch) × (find_in_children lower case_sensitive (d ∷ needle) pos children r
        ≡ some (fresh (r.matches ++ ms)))
      × InRuns lower case_sensitive d needle (runs_from pos children current) ms

  AllKeepLength-close :
      (current : Option TextRun) (runs : List TextRun)
      → AllKeepLength lower case_sensitive (close current runs)
      → AllKeepLength lower case_sensitive (close current [])
        × AllKeepLength lower case_sensitive runs
  AllKeepLength-close none runs h = (tt, h)
  AllKeepLength-close (some run) runs (h, k) = ((h, tt), k)

  -- An atom, and a text node without a text.
  abbrev Breaks : Inline → Type 0
  Breaks (text_node offset []) = Unit
  Breaks (text_node offset (c ∷ t)) = ⊥
  Breaks (atom offset) = Unit

  find_in_children_break :
      (pos : ℕ) (child : Inline) (later : List Inline) (r flushed : Run)
      → Breaks child
      → flush lower case_sensitive (d ∷ needle) r ≡ some flushed
      → find_in_children lower case_sensitive (d ∷ needle) pos (child ∷ later) r
        ≡ find_in_children lower case_sensitive (d ∷ needle) pos later flushed
  unfolding find_in_children
  find_in_children_break pos (text_node offset []) later r flushed h e =
      rw (e, find_in_children) refl
  find_in_children_break pos (text_node offset (c ∷ t)) later r flushed h e = absurd h
  find_in_children_break pos (atom offset) later r flushed h e = rw (e, find_in_children) refl

  Found-break :
      (pos : ℕ) (child : Inline) (later : List Inline) (r : Run) (current : Option TextRun)
      → Breaks child
      → (flushed : (ms : List FindMatch) × Flushed r current ms)
      → Found pos later (fresh (r.matches ++ flushed.0)) none
      → (ms : List FindMatch) × (find_in_children lower case_sensitive
            (d ∷ needle)
            pos
            (child ∷ later)
            r
          ≡ some (fresh (r.matches ++ ms)))
        × InRuns lower case_sensitive d needle (close current (runs_from pos later none)) ms
  Found-break pos child later r current h (ms, (e, k)) (rest, e', k') = (
    ms ++ rest,
    find_in_children_break pos child later r (fresh (r.matches ++ ms)) h e
        ∙ e'
        ∙ ap (λ m. some (fresh m)) (append_assoc r.matches ms rest),
    k (runs_from pos later none) rest k',
  )

  find_in_children_lem :
      (pos : ℕ) (children : List Inline) (r : Run) (current : Option TextRun)
      → Tracks r current
      → AdjacentFrom pos (behind current) children
      → AllKeepLength lower case_sensitive (runs_from pos children current)
      → Found pos children r current
  unfolding find_in_children
  find_in_children_lem pos [] r current h a k =
      let flushed = flush_lem r current h k in
      (flushed.0, flushed.1.0, rw (append-nil flushed.0) at (flushed.1.1 [] [] no_runs))
  find_in_children_lem pos (text_node offset [] ∷ later) r current h a k =
      let both = AllKeepLength-close current (runs_from pos later none) k in
      let flushed = flush_lem r current h both.0 in
      Found-break pos (text_node offset []) later r current tt flushed (
        find_in_children_lem pos later (fresh (r.matches ++ flushed.0)) none (refl, refl)
          (AdjacentFrom-past_empty pos offset (behind current) later a) both.1)
  find_in_children_lem pos (text_node offset (c ∷ t) ∷ later) r none h a k =
      find_in_children_lem pos later (add_segment pos offset (c ∷ t) r)
        (some (extend (pos + 1 + offset) (c ∷ t) none))
        (Tracks-first_segment pos offset (c ∷ t) r h) a k
  find_in_children_lem pos (text_node offset (c ∷ t) ∷ later) r (some run) h (e, a) k =
      find_in_children_lem pos later (add_segment pos offset (c ∷ t) r)
        (some (extend (pos + 1 + offset) (c ∷ t) (some run)))
        (Tracks-add_segment pos offset (c ∷ t) r run h e)
        (AdjacentFrom-longer pos run (c ∷ t) later a) k
  find_in_children_lem pos (atom offset ∷ later) r current h a k =
      let both = AllKeepLength-close current (runs_from pos later none) k in
      let flushed = flush_lem r current h both.0 in
      Found-break pos (atom offset) later r current tt flushed
        (find_in_children_lem pos later (fresh (r.matches ++ flushed.0)) none (refl, refl) a both.1)

  InRuns-append :
      {runs more : List TextRun} {ms rest : List FindMatch}
      → InRuns lower case_sensitive d needle runs ms
      → InRuns lower case_sensitive d needle more rest
      → InRuns lower case_sensitive d needle (runs ++ more) (ms ++ rest)
  InRuns-append no_runs k = k
  InRuns-append {runs} {more} {ms} {rest} (one_run run found {runs = later} {ms = ms'} h l) k =
      rw (append_assoc (shifted (length (d ∷ needle)) run.start found) ms' rest)
        (one_run run found h (InRuns-append l k))

  AllKeepLength-split :
      (runs more : List TextRun)
      → AllKeepLength lower case_sensitive (runs ++ more)
      → AllKeepLength lower case_sensitive runs × AllKeepLength lower case_sensitive more
  AllKeepLength-split [] more h = (tt, h)
  AllKeepLength-split (run ∷ runs) more (h, k) =
      let both = AllKeepLength-split runs more k in ((h, both.0), both.1)

  find_in_blocks-cons :
      (b : Textblock) (blocks : List Textblock) (found : List FindMatch) (ms : List FindMatch)
      → find_in_children lower case_sensitive (d ∷ needle) b.pos b.children (fresh found)
        ≡ some (fresh ms)
      → find_in_blocks lower case_sensitive (d ∷ needle) (b ∷ blocks) found
        ≡ find_in_blocks lower case_sensitive (d ∷ needle) blocks ms
  unfolding find_in_blocks
  find_in_blocks-cons b blocks found ms e = rw (e, find_in_blocks) refl

  find_in_blocks_lem :
      (blocks : List Textblock) (found : List FindMatch)
      → All Adjacent blocks
      → AllKeepLength lower case_sensitive (runs_of blocks)
      → (ms : List FindMatch) × (find_in_blocks lower case_sensitive (d ∷ needle) blocks found
          ≡ some (found ++ ms))
        × InRuns lower case_sensitive d needle (runs_of blocks) ms
  unfolding find_in_blocks
  find_in_blocks_lem [] found h k = ([], ap some (sym (append-nil found)), no_runs)
  find_in_blocks_lem (b ∷ blocks) found (h, h') k =
      let both = AllKeepLength-split (runs_from b.pos b.children none) (runs_of blocks) k in
      let first = find_in_children_lem b.pos b.children (fresh found) none (refl, refl) h both.0 in
      let rest = find_in_blocks_lem blocks (found ++ first.0) h' both.1 in
      (
        first.0 ++ rest.0,
        find_in_blocks-cons b blocks found (found ++ first.0) first.1
            ∙ rest.1
            ∙ ap some (append_assoc found first.0 rest.0),
        InRuns-append first.2 rest.2,
      )

  -- Where the text nodes of each block stand one behind the other, and lower case, if the search
  -- ignores case, keeps the lengths of the document's runs of text: a search for a text ends, and its
  -- matches are, run by run and in the document's order, the leftmost occurrences that do not overlap,
  -- each at the positions of its characters in the document.
  pub find_matches-InRuns :
      (c : ℕ) (query : List ℕ) (doc : List Textblock)
      → fold_case lower case_sensitive (c ∷ query) ≡ d ∷ needle
      → All Adjacent doc
      → AllKeepLength lower case_sensitive (runs_of doc)
      → (ms : List FindMatch) × (find_matches lower case_sensitive (c ∷ query) doc ≡ some ms)
        × InRuns lower case_sensitive d needle (runs_of doc) ms
  unfolding find_matches
  find_matches-InRuns c query doc e h k = rw e (find_in_blocks_lem doc [] h k)
