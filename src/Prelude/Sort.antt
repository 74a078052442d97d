-- ===== src/Prelude/Sort.antt =====
-- A stable sort, as `Array.prototype.sort` with a comparator: `le a b` is `compare(a, b) <= 0`.
use Prim.Native.Nat.{suc}
use native.Mathlib.Omega.{arith}
use mathlib.Core.Path.{◌≡◌, refl, sym, ap, ◌∙◌}
use mathlib.Core.Bool.{Bool, true, false}
use mathlib.Core.List.{List, [], ◌∷◌, ◌++◌, map, Perm}
use mathlib.Core.List.Perm
use mathlib.Core.Logic.{inl, inr}
use yanta.Prelude.Tests.{if◌then◌else◌, Bool-cases}
use yanta.Prelude.Lists.{length, All, All-map}

module _ {ℓ} {A : Type ℓ} (le : A → A → Bool) where
  pub insert_sorted : A → List A → List A
  insert_sorted x [] = x ∷ []
  insert_sorted x (y ∷ ys) =
      let later = y ∷ insert_sorted x ys in if le x y then x ∷ y ∷ ys else later

  unfoldable pub sort_by : List A → List A
  unfolding insert_sorted
  sort_by [] = []
  sort_by (x ∷ xs) = insert_sorted x (sort_by xs)

  abbrev pub IsSorted : List A → Type ℓ
  IsSorted [] = Unit
  IsSorted (x ∷ xs) = All (λ y. le x y ≡ true) xs × IsSorted xs

  insert_sorted-perm : (x : A) (ys : List A) → Perm (insert_sorted x ys) (x ∷ ys)
  unfolding insert_sorted
  insert_sorted-perm x [] = Perm.refl (x ∷ [])
  insert_sorted-perm x (y ∷ ys) = elim (Bool-cases (le x y)) [
    | inl first ↦ rw first (Perm.refl (x ∷ y ∷ ys))
    | inr later ↦ rw later (Perm.trans (Perm.cons y (insert_sorted-perm x ys)) (Perm.swap x y ys))
  ]

  -- The sorted list holds the same elements, as often.
  pub sort_by-perm : (xs : List A) → Perm (sort_by xs) xs
  unfolding sort_by
  sort_by-perm [] = Perm.refl []
  sort_by-perm (x ∷ xs) =
      Perm.trans (insert_sorted-perm x (sort_by xs)) (Perm.cons x (sort_by-perm xs))

  All-insert_sorted {κ} :
      (P : A → Type κ) (x : A) (ys : List A) → P x → All P ys → All P (insert_sorted x ys)
  unfolding insert_sorted
  All-insert_sorted P x [] h k = (h, tt)
  All-insert_sorted P x (y ∷ ys) h (k, l) = elim (Bool-cases (le x y)) [
    | inl first ↦ rw first (h, (k, l))
    | inr later ↦ rw later (k, All-insert_sorted P x ys h l)
  ]

  -- What holds of every element holds of every element of the sorted list.
  pub All-sort_by {κ} : (P : A → Type κ) (xs : List A) → All P xs → All P (sort_by xs)
  unfolding sort_by
  All-sort_by P [] h = tt
  All-sort_by P (x ∷ xs) (h, k) = All-insert_sorted P x (sort_by xs) h (All-sort_by P xs k)

  length-insert_sorted : (x : A) (ys : List A) → length (insert_sorted x ys) ≡ suc (length ys)
  unfolding insert_sorted
  length-insert_sorted x [] = refl
  length-insert_sorted x (y ∷ ys) = ground (arith, length-insert_sorted x ys)

  pub length-sort_by : (xs : List A) → length (sort_by xs) ≡ length xs
  unfolding sort_by
  length-sort_by [] = refl
  length-sort_by (x ∷ xs) = omega (arith, length-insert_sorted x (sort_by xs), length-sort_by xs)

  insert_sorted-last :
      (y : A) (zs : List A) (x : A)
      → le y x ≡ true
      → insert_sorted y (zs ++ (x ∷ [])) ≡ insert_sorted y zs ++ (x ∷ [])
  unfolding insert_sorted
  insert_sorted-last y [] x h = rw h refl
  insert_sorted-last y (z ∷ zs) x h = elim (Bool-cases (le y z)) [
    | inl first ↦ rw first refl
    | inr later ↦ rw later (ap (λ l. z ∷ l) (insert_sorted-last y zs x h))
  ]

  -- A last element that none is greater than stays the last.
  pub sort_by-last :
      (xs : List A) (x : A)
      → All (λ y. le y x ≡ true) xs
      → sort_by (xs ++ (x ∷ [])) ≡ sort_by xs ++ (x ∷ [])
  unfolding sort_by insert_sorted
  sort_by-last [] x h = refl
  sort_by-last (y ∷ xs) x (h, k) =
      ap (insert_sorted y) (sort_by-last xs x k) ∙ insert_sorted-last y (sort_by xs) x h

  module _ (total : (x y : A) → le x y ≡ false → le y x ≡ true)
      (trans : (x y z : A) → le x y ≡ true → le y z ≡ true → le x z ≡ true) where
    All-le :
        (x y : A) (ys : List A)
        → le x y ≡ true
        → All (λ z. le y z ≡ true) ys
        → All (λ z. le x z ≡ true) ys
    All-le x y ys h k =
        All-map (λ z. le y z ≡ true) (λ z. le x z ≡ true) (λ z l. trans x y z h l) ys k

    insert_sorted-IsSorted : (x : A) (ys : List A) → IsSorted ys → IsSorted (insert_sorted x ys)
    unfolding insert_sorted
    insert_sorted-IsSorted x [] h = (tt, tt)
    insert_sorted-IsSorted x (y ∷ ys) (h, k) = elim (Bool-cases (le x y)) [
      | inl first ↦ rw first ((first, All-le x y ys first h), (h, k))
      | inr later ↦ rw later (
        All-insert_sorted (λ z. le y z ≡ true) x ys (total x y later) h,
        insert_sorted-IsSorted x ys k,
      )
    ]

    -- The list is sorted, where the comparison is total and transitive.
    pub sort_by-IsSorted : (xs : List A) → IsSorted (sort_by xs)
    unfolding sort_by
    sort_by-IsSorted [] = tt
    sort_by-IsSorted (x ∷ xs) = insert_sorted-IsSorted x (sort_by xs) (sort_by-IsSorted xs)

-- Sorting by a comparison of what a function makes of the elements.
module _ {ℓ κ} {A : Type ℓ} {B : Type κ} (le : A → A → Bool) (le' : B → B → Bool) (f : A → B) where
  -- On each element and the ones after it the two comparisons agree.
  abbrev pub Agree : List A → Type ℓ
  Agree [] = Unit
  Agree (x ∷ xs) = All (λ y. le x y ≡ le' (f x) (f y)) xs × Agree xs

  map-insert_sorted :
      (x : A) (ys : List A)
      → All (λ y. le x y ≡ le' (f x) (f y)) ys
      → map f (insert_sorted le x ys) ≡ insert_sorted le' (f x) (map f ys)
  unfolding insert_sorted
  map-insert_sorted x [] h = refl
  map-insert_sorted x (y ∷ ys) (e, h) = elim (Bool-cases (le x y)) [
    | inl first ↦ rw (first, sym e ∙ first) refl
    | inr later ↦ rw (later, sym e ∙ later) (ap (λ l. f y ∷ l) (map-insert_sorted x ys h))
  ]

  pub map-sort_by : (xs : List A) → Agree xs → map f (sort_by le xs) ≡ sort_by le' (map f xs)
  unfolding sort_by
  map-sort_by [] h = refl
  map-sort_by (x ∷ xs) (h, k) =
      map-insert_sorted x (sort_by le xs) (All-sort_by le (λ y. le x y ≡ le' (f x) (f y)) xs h)
      ∙ ap (insert_sorted le' (f x)) (map-sort_by xs k)
