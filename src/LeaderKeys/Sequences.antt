-- ===== src/LeaderKeys/Sequences.antt =====
-- A page is visited exactly for the leader key followed at once by the key of the page.
use yanta.Prelude.{
  ◌≡◌, refl, sym, ap, ◌∙◌, Bool, true, false, Option, none, some, String, str_eq, List, [], ◌∷◌,
  ◌++◌, lookup, if◌then◌else◌,
}
use mathlib.Core.List.{append_assoc, append-nil}
use yanta.LeaderKeys.{
  respond, PageName, leader, destinations, KeyboardEvent, Event, key_down, timeout, LeaderKeys,
  disarm, is_modified, on_key_down, run, idle,
}

abbrev pages_if_plain : Bool → Bool → Option PageName → List PageName
pages_if_plain true editable page = []
pages_if_plain false true page = []
pages_if_plain false false none = []
pages_if_plain false false (some page) = page ∷ []

abbrev leader_if_plain : Bool → Bool → Bool → Bool
leader_if_plain true editable b = false
leader_if_plain false true b = false
leader_if_plain false false b = b

respond-idle :
    (modified editable b : Bool) (page : Option PageName) (s : LeaderKeys)
    → s.armed ≡ false
    → ((respond modified editable false b page s).armed ≡ leader_if_plain modified editable b)
      × ((respond modified editable false b page s).visited ≡ s.visited)
respond-idle true editable b page s h = (refl, refl)
respond-idle false true b page s h = (refl, refl)
respond-idle false false true page s h = (refl, refl)
respond-idle false false false page s h = (h, refl)

respond-armed :
    (modified editable b : Bool) (page : Option PageName) (s : LeaderKeys)
    → ((respond modified editable true b page s).armed ≡ false)
      × ((respond modified editable true b page s).visited
          ≡ s.visited ++ pages_if_plain modified editable page)
respond-armed true editable b page s = (refl, sym (append-nil s.visited))
respond-armed false true b page s = (refl, sym (append-nil s.visited))
respond-armed false false b none s = (refl, sym (append-nil s.visited))
respond-armed false false b (some page) s = (refl, refl)

module _ (lower : String → String) where
  -- A plain leader key that reaches the page itself, and not a field of it.
  abbrev pub is_leader : KeyboardEvent → Bool
  is_leader e = leader_if_plain (is_modified e) e.editable_target (str_eq e.key leader)

  -- The page that a key asks for after the leader, if it is plain.
  abbrev pub page_of : KeyboardEvent → List PageName
  page_of e = pages_if_plain (is_modified e) e.editable_target (lookup (lower e.key) destinations)

  -- The pages that a sequence of events asks for: the leader and the event after it are read
  -- together, whatever that event is.
  unfoldable pub pages : List Event → List PageName
  pages [] = []
  pages (timeout ∷ es) = pages es
  pages (key_down e ∷ []) = []
  pages (key_down e ∷ timeout ∷ es) = pages es
  pages (key_down e ∷ key_down f ∷ es) =
      let together = page_of f ++ pages es in
      let apart = pages (key_down f ∷ es) in if is_leader e then together else apart

  -- The pages asked for from an armed state.
  abbrev pages_armed : List Event → List PageName
  pages_armed [] = []
  pages_armed (timeout ∷ es) = pages es
  pages_armed (key_down f ∷ es) = page_of f ++ pages es

  abbrev pages_in : Bool → List Event → List PageName
  pages_in true es = pages_armed es
  pages_in false es = pages es

  idle_key :
      (e : KeyboardEvent) (s : LeaderKeys)
      → s.armed ≡ false
      → ((on_key_down lower e s).armed ≡ is_leader e)
        × ((on_key_down lower e s).visited ≡ s.visited)
  unfolding on_key_down
  idle_key e s h =
      rw
        (sym (
          ap
            (λ b.
              respond (is_modified e) e.editable_target b (str_eq e.key leader)
                (lookup (lower e.key) destinations) s)
            h))
        at
        (respond-idle (is_modified e) e.editable_target (str_eq e.key leader)
          (lookup (lower e.key) destinations) s h)

  armed_key :
      (e : KeyboardEvent) (s : LeaderKeys)
      → s.armed ≡ true
      → ((on_key_down lower e s).armed ≡ false)
        × ((on_key_down lower e s).visited ≡ s.visited ++ page_of e)
  unfolding on_key_down
  armed_key e s h =
      rw
        (sym (
          ap
            (λ b.
              respond (is_modified e) e.editable_target b (str_eq e.key leader)
                (lookup (lower e.key) destinations) s)
            h))
        at
        (respond-armed (is_modified e) e.editable_target (str_eq e.key leader)
          (lookup (lower e.key) destinations) s)

  pages-key :
      (e : KeyboardEvent) (es : List Event) → pages (key_down e ∷ es) ≡ pages_in (is_leader e) es
  unfolding pages
  pages-key e [] = at_end (is_leader e)
    where
      at_end : (b : Bool) → [] ≡ pages_in b []
      at_end true = refl
      at_end false = refl
  pages-key e (timeout ∷ es) = timed_out (is_leader e)
    where
      timed_out : (b : Bool) → pages es ≡ pages_in b (timeout ∷ es)
      timed_out true = refl
      timed_out false = refl
  pages-key e (key_down f ∷ es) = followed (is_leader e)
    where
      followed :
          (b : Bool)
          → (if b then page_of f ++ pages es else pages (key_down f ∷ es))
            ≡ pages_in b (key_down f ∷ es)
      followed true = refl
      followed false = refl

  run_lem :
      (es : List Event) (s : LeaderKeys) (b : Bool)
      → s.armed ≡ b
      → (run lower es s).visited ≡ s.visited ++ pages_in b es
  unfolding run pages
  run_lem [] s true h = sym (append-nil s.visited)
  run_lem [] s false h = sym (append-nil s.visited)
  run_lem (timeout ∷ es) s true h = run_lem es (disarm s) false refl
  run_lem (timeout ∷ es) s false h = run_lem es (disarm s) false refl
  run_lem (key_down e ∷ es) s true h =
      let k = armed_key e s h in
      run_lem es (on_key_down lower e s) false k.0
      ∙ ap (λ v. v ++ pages es) k.1
      ∙ append_assoc s.visited (page_of e) (pages es)
  run_lem (key_down e ∷ es) s false h =
      let k = idle_key e s h in
      run_lem es (on_key_down lower e s) (is_leader e) k.0
      ∙ ap (λ v. v ++ pages_in (is_leader e) es) k.1
      ∙ ap (λ v. s.visited ++ v) (sym (pages-key e es))

  -- The pages that a sequence of events visits, from the start, are those of the plain keys of a page
  -- that come right after a plain leader key: with no timeout, no other key and no press in a field in
  -- between, and the key of a page is not read as a leader itself.
  pub run-pages : (es : List Event) → (run lower es idle).visited ≡ pages es
  run-pages es = run_lem es idle false refl
