-- ===== src/Find/Occurrences.antt =====
-- The occurrences of a text in another, as the loop of `flush` finds them.
use yanta.Prelude.{
  drop-drop, length-drop, drop, ◌≡◌, refl, sym, ap, ◌∙◌, ◌⊎◌, inl, inr, ℕ, zero, suc, ◌+◌, ◌-◌, ◌≤◌,
  ◌<◌, true, false, Option, none, some, Bool-cases, List, [], ◌∷◌, length, arith,
}
use yanta.Find.{one_later, starts_with, first_index, index_of, occurrences, find_all}

-- `needle` stands in `hay` at the index `i`.
abbrev pub OccursAt : List ℕ → List ℕ → ℕ → Type 0
OccursAt needle hay i = starts_with needle (drop i hay) ≡ true

pub starts_with-length :
    (needle s : List ℕ) → starts_with needle s ≡ true → length needle ≤ length s
unfolding starts_with
starts_with-length [] s h = omega arith
starts_with-length (c ∷ needle) [] h = ground arith
starts_with-length (c ∷ needle) (d ∷ s) h = ground (arith, starts_with-length needle s)

starts_with-nil : (c : ℕ) (needle : List ℕ) (j : ℕ) → starts_with (c ∷ needle) (drop j []) ≡ false
unfolding starts_with
starts_with-nil c needle zero = refl
starts_with-nil c needle (suc j) = refl

-- What `first_index` returns, for a needle that is not empty.
data FirstIndex (needle s : List ℕ) : Option ℕ → Type 0 where
  absent : ((j : ℕ) → starts_with needle (drop j s) ≡ false) → FirstIndex needle s none
  present :
      (i : ℕ)
      → starts_with needle (drop i s) ≡ true
      → ((j : ℕ) → j < i → starts_with needle (drop j s) ≡ false)
      → FirstIndex needle s (some i)

FirstIndex-later :
    (c : ℕ) (needle : List ℕ) (d : ℕ) (s : List ℕ) (o : Option ℕ)
    → starts_with (c ∷ needle) (d ∷ s) ≡ false
    → FirstIndex (c ∷ needle) s o
    → FirstIndex (c ∷ needle) (d ∷ s) (one_later o)
FirstIndex-later c needle d s o h (absent none_before) =
    absent (elim [ zero ↦ h | suc j ↦ none_before j ])
FirstIndex-later c needle d s o h (present i there none_before) =
    present (suc i) there (elim [ zero ↦ λ k. h | suc j ↦ λ k. none_before j (omega arith) ])

first_index_lem :
    (c : ℕ) (needle s : List ℕ) → FirstIndex (c ∷ needle) s (first_index (c ∷ needle) s)
unfolding first_index starts_with
first_index_lem c needle [] = absent (starts_with-nil c needle)
first_index_lem c needle (d ∷ s) = elim (Bool-cases (starts_with (c ∷ needle) (d ∷ s))) [
  | inl here ↦ rw here (present 0 here (λ j k. absurd (omega arith)))
  | inr later ↦ rw later (
      FirstIndex-later c needle d s (first_index (c ∷ needle) s) later (first_index_lem c needle s))
]

-- The occurrences of `needle` from an index on, each the first one after the end of the one before.
pub data Leftmost (needle hay : List ℕ) : ℕ → List ℕ → Type 0 where
  done :
      {from : ℕ}
      → ((j : ℕ) → from ≤ j → starts_with needle (drop j hay) ≡ false)
      → Leftmost needle hay from []
  next :
      {from i : ℕ} {later : List ℕ}
      → from ≤ i
      → OccursAt needle hay i
      → ((j : ℕ) → from ≤ j → j < i → starts_with needle (drop j hay) ≡ false)
      → Leftmost needle hay (i + length needle) later
      → Leftmost needle hay from (i ∷ later)

before_moved :
    (needle hay : List ℕ) (from j : ℕ)
    → from ≤ j
    → starts_with needle (drop (j - from) (drop from hay)) ≡ false
    → starts_with needle (drop j hay) ≡ false
before_moved needle hay from j h k =
    ap (λ s. starts_with needle s)
      (ap (λ i. drop i hay) (omega arith) ∙ sym (drop-drop (j - from) from hay))
    ∙ k

-- What `index_of` returns, for a needle that is not empty.
data IndexOf (needle hay : List ℕ) (from : ℕ) (o : Option ℕ) : Type 0 where
  absent_from :
      o ≡ none
      → ((j : ℕ) → from ≤ j → starts_with needle (drop j hay) ≡ false)
      → IndexOf needle hay from o
  present_at :
      (i : ℕ)
      → o ≡ some i
      → from ≤ i
      → OccursAt needle hay i
      → ((j : ℕ) → from ≤ j → j < i → starts_with needle (drop j hay) ≡ false)
      → IndexOf needle hay from o

add_from : ℕ → Option ℕ → Option ℕ
add_from from o = elim o [ none ↦ none | some i ↦ some (from + i) ]

IndexOf-found :
    (needle hay : List ℕ) (from : ℕ) (o : Option ℕ)
    → FirstIndex needle (drop from hay) o
    → IndexOf needle hay from (add_from from o)
unfolding add_from
IndexOf-found needle hay from o (absent h) =
    absent_from refl (λ j k. before_moved needle hay from j k (h (j - from)))
IndexOf-found needle hay from o (present i there before) =
    present_at (from + i) refl (omega arith)
      (ap (starts_with needle) (sym (drop-drop i from hay)) ∙ there)
      (λ j k l. before_moved needle hay from j k (before (j - from) (omega arith)))

index_of_lem :
    (c : ℕ) (needle hay : List ℕ) (from : ℕ)
    → IndexOf (c ∷ needle) hay from (index_of (c ∷ needle) hay from)
unfolding index_of add_from
index_of_lem c needle hay from =
    IndexOf-found (c ∷ needle) hay from (first_index (c ∷ needle) (drop from hay))
      (first_index_lem c needle (drop from hay))

-- An occurrence leaves room for itself.
occurs_room :
    (c : ℕ) (needle hay : List ℕ) (i : ℕ)
    → OccursAt (c ∷ needle) hay i
    → i + length (c ∷ needle) ≤ length hay
occurs_room c needle hay i h =
    omega (arith, length-drop i hay, starts_with-length (c ∷ needle) (drop i hay) h)

occurrences-none :
    (fuel : ℕ) (needle hay : List ℕ) (from : ℕ)
    → index_of needle hay from ≡ none
    → occurrences (suc fuel) needle hay from ≡ some []
unfolding occurrences
occurrences-none fuel needle hay from e = rw (e, occurrences) refl

occurrences-some :
    (fuel : ℕ) (needle hay : List ℕ) (from i : ℕ) (later : List ℕ)
    → index_of needle hay from ≡ some i
    → occurrences fuel needle hay (i + length needle) ≡ some later
    → occurrences (suc fuel) needle hay from ≡ some (i ∷ later)
unfolding occurrences
occurrences-some fuel needle hay from i later e k = rw (e, k, occurrences) refl

-- The loop ends, with the leftmost occurrences, on fuel for the rest of the text.
occurrences_lem :
    (fuel c : ℕ) (needle hay : List ℕ) (from : ℕ)
    → from ≤ length hay
    → length hay < from + fuel
    → (found : List ℕ) × (occurrences fuel (c ∷ needle) hay from ≡ some found)
      × Leftmost (c ∷ needle) hay from found
unfolding occurrences
occurrences_lem zero c needle hay from h k = absurd (omega arith)
occurrences_lem (suc fuel) c needle hay from h k = elim (index_of_lem c needle hay from) [
  | absent_from e before ↦ ([], occurrences-none fuel (c ∷ needle) hay from e, done before)
  | present_at i e ge there before ↦
      let later =
        occurrences_lem fuel c needle hay (i + length (c ∷ needle))
          (occurs_room c needle hay i there) (omega arith) in
      (
        i ∷ later.0,
        occurrences-some fuel (c ∷ needle) hay from i later.0 e later.1,
        next ge there before later.2,
      )
]

-- For a needle that is not empty the search ends, and finds the leftmost occurrences that do not
-- overlap: each is the first one after the end of the one before it.
pub find_all_lem :
    (c : ℕ) (needle hay : List ℕ)
    → (found : List ℕ) × (find_all (c ∷ needle) hay ≡ some found)
      × Leftmost (c ∷ needle) hay 0 found
unfolding find_all
find_all_lem c needle hay =
    occurrences_lem (suc (length hay)) c needle hay 0 (omega arith) (omega arith)

-- An index lies in a match.
abbrev pub Covers : ℕ → ℕ → List ℕ → Type 0
Covers n j [] = ⊥
Covers n j (i ∷ later) = ((i ≤ j) × (j < i + n)) ⊎ Covers n j later

Leftmost-Covers :
    (needle hay : List ℕ) {from : ℕ} {found : List ℕ}
    → Leftmost needle hay from found
    → (j : ℕ) → from ≤ j
    → OccursAt needle hay j
    → Covers (length needle) j found
Leftmost-Covers needle hay (done none_later) j h k = absurd (cc (none_later j h, k))
Leftmost-Covers needle hay (next {from} {i} ge there before later) j h k = elim (lt-or-ge j i) [
  | inl early ↦ absurd (cc (before j h early, k))
  | inr late ↦ elim (lt-or-ge j (i + length needle)) [
    | inl inside ↦ inl (late, inside)
    | inr past ↦ inr (Leftmost-Covers needle hay later j past k)
  ]
]
  where
    lt-or-ge : (a b : ℕ) → (a < b) ⊎ (b ≤ a)
    lt-or-ge a b = omega arith

-- Every occurrence of a text that is not empty, also one that overlaps another, starts inside a match.
pub find_all-Covers :
    (c : ℕ) (needle hay found : List ℕ)
    → find_all (c ∷ needle) hay ≡ some found
    → (j : ℕ) → OccursAt (c ∷ needle) hay j
    → Covers (length (c ∷ needle)) j found
find_all-Covers c needle hay found e j h =
    let all = find_all_lem c needle hay in
    rw (same all.0 all.1) (Leftmost-Covers (c ∷ needle) hay all.2 j (omega arith) h)
  where
    same : (l : List ℕ) → find_all (c ∷ needle) hay ≡ some l → found ≡ l
    same l k = cc (e, k)
