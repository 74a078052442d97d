-- ===== src/Preferences/Groups.antt =====
-- The groups of shortcuts under the renaming of their keys, frontend/src/config/preferences.ts.
use mathlib.Core.Path.{subst}
use yanta.Prelude.{
  Bool, true, false, String, str_eq, str_eq-ne, List, [], ◌∷◌, ◌++◌, map, any, inl, inr,
  str_eq-cases, insert, keys, Distinct, filter, All, All-map, refl, sym, ap, ◌∙◌, ◌≡◌, ◌≢◌,
}
use mathlib.Core.List.{append_assoc, append-nil}
use yanta.Preferences.Merge.{groups}
use yanta.Preferences.{Shortcuts, copy_groups, rename, to_pascal, to_camel}

abbrev pub is_filled : (String × List (String × String)) → Bool
is_filled (k, []) = false
is_filled (k, _ ∷ _) = true

abbrev pub renamed : List (String × String) → Shortcuts → Shortcuts
renamed key_map = map (λ e. (rename key_map e.0, e.1))

insert-append_new :
    (k : String) (v : List (String × String)) (m : Shortcuts)
    → All (λ j. j ≢ k) (keys m)
    → insert k v m ≡ m ++ ((k, v) ∷ [])
insert-append_new k v [] h = refl
insert-append_new k v ((j, w) ∷ m) (h, hs) = rw (str_eq-ne j k h, insert-append_new k v m hs) refl

-- A key that comes later in a list without repetition is none of the earlier ones.
Distinct-new :
    (ks : List String) (k : String) (r : List String)
    → Distinct (ks ++ (k ∷ r))
    → All (λ j. j ≢ k) ks × Distinct (ks ++ r)
Distinct-new [] k r (h, d) = (tt, d)
Distinct-new (j ∷ ks) k r (h, d) =
    let ih = Distinct-new ks k r d in (((λ e. middle ks h (sym e)), ih.0), (drop_middle ks h, ih.1))
  where
    middle : (xs : List String) → All (λ i. i ≢ j) (xs ++ (k ∷ r)) → k ≢ j
    middle [] a = a.0
    middle (x ∷ xs) a = middle xs a.1

    drop_middle : (xs : List String) → All (λ i. i ≢ j) (xs ++ (k ∷ r)) → All (λ i. i ≢ j) (xs ++ r)
    drop_middle [] a = a.1
    drop_middle (x ∷ xs) a = (a.0, drop_middle xs a.1)

keys-append_one :
    (acc : Shortcuts) (k : String) (v : List (String × String)) (r : List String)
    → keys (acc ++ ((k, v) ∷ [])) ++ r ≡ keys acc ++ (k ∷ r)
keys-append_one [] k v r = refl
keys-append_one (e ∷ acc) k v r = ap (λ l. e.0 ∷ l) (keys-append_one acc k v r)

-- The loop adds the filled groups, renamed, in their order.
copy_groups-append :
    (key_map : List (String × String)) (acc s : Shortcuts)
    → Distinct (keys acc ++ keys (renamed key_map s))
    → copy_groups key_map acc s ≡ acc ++ renamed key_map (filter is_filled s)
unfolding copy_groups
copy_groups-append m acc [] d = sym (append-nil acc)
copy_groups-append m acc ((k, []) ∷ s) d =
    copy_groups-append m acc s ((Distinct-new (keys acc) (rename m k) (keys (renamed m s)) d).1)
copy_groups-append m acc ((k, e ∷ es) ∷ s) d =
    let new = rename m k in
    rw (insert-append_new new (e ∷ es) acc ((Distinct-new (keys acc) new (keys (renamed m s)) d).0))
      (copy_groups-append m (acc ++ ((new, e ∷ es) ∷ [])) s
          (rw (keys-append_one acc new (e ∷ es) (keys (renamed m s))) d)
        ∙ append_assoc acc ((new, e ∷ es) ∷ []) (renamed m (filter is_filled s)))

renamed-Distinct :
    (fwd back : List (String × String)) (s : Shortcuts)
    → All (λ k. rename back (rename fwd k) ≡ k) (keys s)
    → Distinct (keys s)
    → Distinct (keys (renamed fwd s))
renamed-Distinct fwd back [] r d = tt
renamed-Distinct fwd back (e ∷ s) (r, rs) (h, d) = (apart s rs h, renamed-Distinct fwd back s rs d)
  where
    apart :
        (t : Shortcuts)
        → All (λ k. rename back (rename fwd k) ≡ k) (keys t)
        → All (λ j. j ≢ e.0) (keys t)
        → All (λ j. j ≢ rename fwd e.0) (keys (renamed fwd t))
    apart [] b a = tt
    apart (x ∷ t) (b, bs) (a, rest) = ((λ q. a (sym b ∙ ap (rename back) q ∙ r)), apart t bs rest)

renamed-back :
    (fwd back : List (String × String)) (s : Shortcuts)
    → All (λ k. rename back (rename fwd k) ≡ k) (keys s)
    → renamed back (renamed fwd s) ≡ s
renamed-back fwd back [] r = refl
renamed-back fwd back ((k, v) ∷ s) (r, rs) =
    ap (λ j. (j, v) ∷ renamed back (renamed fwd s)) r
    ∙ ap (λ t. (k, v) ∷ t) (renamed-back fwd back s rs)

filter-renamed :
    (key_map : List (String × String)) (s : Shortcuts)
    → filter is_filled (renamed key_map (filter is_filled s)) ≡ renamed key_map (filter is_filled s)
filter-renamed m [] = refl
filter-renamed m ((k, []) ∷ s) = filter-renamed m s
filter-renamed m ((k, e ∷ es) ∷ s) = ap (λ t. (rename m k, e ∷ es) ∷ t) (filter-renamed m s)

All-filter-keys :
    (P : String → Type 0) (s : Shortcuts) → All P (keys s) → All P (keys (filter is_filled s))
All-filter-keys P [] a = tt
All-filter-keys P ((k, []) ∷ s) (a, rest) = All-filter-keys P s rest
All-filter-keys P ((k, e ∷ es) ∷ s) (a, rest) = (a, All-filter-keys P s rest)

filter-Distinct : (s : Shortcuts) → Distinct (keys s) → Distinct (keys (filter is_filled s))
filter-Distinct [] d = tt
filter-Distinct ((k, []) ∷ s) (h, d) = filter-Distinct s d
filter-Distinct ((k, e ∷ es) ∷ s) (h, d) = (All-filter-keys (λ j. j ≢ k) s h, filter-Distinct s d)

copy_groups-back :
    (fwd back : List (String × String)) (s : Shortcuts)
    → Distinct (keys s)
    → All (λ k. rename back (rename fwd k) ≡ k) (keys s)
    → copy_groups back [] (copy_groups fwd [] s) ≡ filter is_filled s
copy_groups-back fwd back s d r =
    let u = filter is_filled s in
    let ru = All-filter-keys (λ k. rename back (rename fwd k) ≡ k) s r in
    rw (copy_groups-append fwd [] s (renamed-Distinct fwd back s r d)) (
      copy_groups-append back [] (renamed fwd u)
        (rw (renamed-back fwd back u ru) (filter-Distinct s d))
      ∙ ap (renamed back) (filter-renamed fwd s)
      ∙ renamed-back fwd back u ru)

abbrev pub is_group : String → Bool
is_group k = any (λ g. str_eq g k) groups

All-any :
    (P : String → Type 0) (gs : List String) (k : String)
    → All P gs
    → any (λ g. str_eq g k) gs ≡ true
    → P k
All-any P [] k a h = cc
All-any P (g ∷ gs) k (a, rest) h = elim (str_eq-cases g k) [
  | inl e ↦ subst P (e) a
  | inr ne ↦ All-any P gs k rest (rw (str_eq-ne g k ne) at h)
]

group-returns : (k : String) → is_group k ≡ true → rename to_camel (rename to_pascal k) ≡ k
group-returns k h =
    All-any (λ j. rename to_camel (rename to_pascal j) ≡ j) groups k
      (refl, (refl, (refl, (refl, (refl, (refl, (refl, (refl, (refl, (refl, (refl, tt))))))))))) h

-- To the backend's names and back, the filled groups are the same.
pub groups-back :
    (s : Shortcuts)
    → Distinct (keys s)
    → All (λ k. is_group k ≡ true) (keys s)
    → copy_groups to_camel [] (copy_groups to_pascal [] s) ≡ filter is_filled s
groups-back s d g = copy_groups-back to_pascal to_camel s d (
    All-map (λ k. is_group k ≡ true) (λ k. rename to_camel (rename to_pascal k) ≡ k) group-returns
      (keys s) g)
