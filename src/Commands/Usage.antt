-- ===== src/Commands/Usage.antt =====
-- The record of the commands' use stays small, and keeps the command that was just used.
use yanta.Prelude.{
  length-insert-le, drop, length-drop, drop-append, ◌≡◌, refl, ap, ◌∙◌, ℕ, zero, suc, ◌+◌, ◌-◌, ◌≤◌,
  ltb, leb, true, false, Bool-cases, inl, inr, none, some, Option-cases, String, str_eq, eq_iff,
  List, [], ◌∷◌, ◌++◌, length, length-append, All, All-sort_by, length-sort_by, sort_by,
  sort_by-last, lookup, insert, lookup-insert, arith,
}
use yanta.Commands.{
  CommandUsageData, max_entries, used_before, to_keep, write_entries, prune_usage_data, count_of,
  updated, record_command_usage,
}

length-write_entries :
    (entries written : List (String × CommandUsageData))
    → length (write_entries entries written) ≤ length entries + length written
unfolding write_entries
length-write_entries [] written = omega arith
length-write_entries ((key, value) ∷ entries) written = omega (
  arith,
  length-write_entries entries (insert key value written),
  length-insert-le key value written,
)

length-to_keep :
    (usage : List (String × CommandUsageData))
    → max_entries ≤ length usage
    → length (to_keep usage) ≡ max_entries
unfolding to_keep
length-to_keep usage h = omega (
  arith,
  length-drop (length usage - max_entries) (sort_by used_before usage),
  length-sort_by used_before usage,
)

length-prune_usage_data-le :
    (usage : List (String × CommandUsageData)) → length (prune_usage_data usage) ≤ max_entries
unfolding prune_usage_data
length-prune_usage_data-le usage = elim (Bool-cases (leb (length usage) max_entries)) [
  | inl small ↦ rw small (ground arith)
  | inr large ↦
      rw large (
        omega (arith, length-write_entries (to_keep usage) [], length-to_keep usage (ground arith)))
]

-- However many entries there were, a record holds at most a hundred once a use is recorded in it.
pub length-record_command_usage-le :
    (command_id : String) (now : ℕ) (usage : List (String × CommandUsageData))
    → length (record_command_usage command_id now usage) ≤ max_entries
unfolding record_command_usage
length-record_command_usage-le command_id now usage =
    elim (Bool-cases (ltb max_entries (length (updated command_id now usage)))) [
      | inl large ↦ rw large (length-prune_usage_data-le (updated command_id now usage))
      | inr small ↦ rw small (ground arith)
    ]

insert-new :
    (key : String) (value : CommandUsageData) (usage : List (String × CommandUsageData))
    → lookup key usage ≡ none
    → insert key value usage ≡ usage ++ ((key, value) ∷ [])
insert-new key value [] h = refl
insert-new key value ((k, v) ∷ usage) h = elim (Bool-cases (str_eq k key)) [
  | inl same ↦ absurd (ground arith)
  | inr other ↦ rw other (ap (with_entry k v) (insert-new key value usage (ground arith)))
]
  where
    with_entry :
        String
        → CommandUsageData
        → List (String × CommandUsageData)
        → List (String × CommandUsageData)
    with_entry k v l = (k, v) ∷ l

insert-old :
    (key : String) (value old : CommandUsageData) (usage : List (String × CommandUsageData))
    → lookup key usage ≡ some old
    → length (insert key value usage) ≡ length usage
insert-old key value old [] h = ground arith
insert-old key value old ((k, v) ∷ usage) h = ground (arith, insert-old key value old usage)

write_entries-append :
    (entries : List (String × CommandUsageData)) (key : String) (value : CommandUsageData)
    (written : List (String × CommandUsageData))
    → write_entries (entries ++ ((key, value) ∷ [])) written
      ≡ insert key value (write_entries entries written)
unfolding write_entries
write_entries-append [] key value written = refl
write_entries-append ((k, v) ∷ entries) key value written =
    write_entries-append entries key value (insert k v written)

to_keep-last :
    (usage : List (String × CommandUsageData)) (key : String) (value : CommandUsageData)
    → 1 ≤ length usage
    → All (λ e. used_before e (key, value) ≡ true) usage
    → to_keep (usage ++ ((key, value) ∷ []))
      ≡ drop (length (usage ++ ((key, value) ∷ [])) - max_entries) (sort_by used_before usage)
        ++ ((key, value) ∷ [])
unfolding to_keep
to_keep-last usage key value h k =
    ap (drop (length (usage ++ ((key, value) ∷ [])) - max_entries))
      (sort_by-last used_before usage (key, value) k)
    ∙ drop-append (length (usage ++ ((key, value) ∷ [])) - max_entries) (sort_by used_before usage)
        ((key, value) ∷ [])
        (omega
          (arith, h, length-append usage ((key, value) ∷ []), length-sort_by used_before usage))

lookup-insert_same :
    (key : String) (value : CommandUsageData) (usage : List (String × CommandUsageData))
    → lookup key (insert key value usage) ≡ some value
lookup-insert_same key value usage =
    lookup-insert key key value usage ∙ ground (arith, eq_iff key key)

prune_usage_data-last :
    (usage : List (String × CommandUsageData)) (key : String) (value : CommandUsageData)
    → max_entries ≤ length usage
    → All (λ e. used_before e (key, value) ≡ true) usage
    → lookup key (prune_usage_data (usage ++ ((key, value) ∷ []))) ≡ some value
unfolding prune_usage_data
prune_usage_data-last usage key value h k =
    rw
      (
        too_many,
        to_keep-last usage key value (omega arith) k,
        write_entries-append kept key value [],
      )
      (lookup-insert_same key value (write_entries kept []))
  where
    kept : List (String × CommandUsageData)
    kept = drop (length (usage ++ ((key, value) ∷ [])) - max_entries) (sort_by used_before usage)

    too_many : leb (length (usage ++ ((key, value) ∷ []))) max_entries ≡ false
    too_many = ground (arith, length-append usage ((key, value) ∷ []))

-- Where the record holds at most a hundred uses, none of them later than now: the command that is
-- recorded has now for its last use and one use more, also where the record is full.
pub lookup-record_command_usage :
    (command_id : String) (now : ℕ) (usage : List (String × CommandUsageData))
    → length usage ≤ max_entries
    → All (λ e. leb e.1.last_used now ≡ true) usage
    → lookup command_id (record_command_usage command_id now usage)
      ≡ some (record { last_used = now; use_count = count_of (lookup command_id usage) + 1 })
unfolding record_command_usage
lookup-record_command_usage command_id now usage h k =
    elim (Bool-cases (ltb max_entries (length (updated command_id now usage)))) [
      | inr small ↦ rw small (lookup-insert_same command_id value usage)
      | inl large ↦ elim (Option-cases (lookup command_id usage)) [
        | inr (old, e) ↦ absurd (ground (arith, insert-old command_id value old usage e))
        | inl e ↦
            let new = insert-new command_id value usage e in
            rw (large, new)
              (prune_usage_data-last usage command_id value
                (ground (arith, length-insert-le command_id value usage)) k)
      ]
    ]
  where
    value : CommandUsageData
    value = record { last_used = now; use_count = count_of (lookup command_id usage) + 1 }

module _ (P : String × CommandUsageData → Type 0) where
  All-insert :
      (key : String) (value : CommandUsageData) (usage : List (String × CommandUsageData))
      → All P usage
      → P (key, value)
      → All P (insert key value usage)
  All-insert key value [] h k = (k, tt)
  All-insert key value ((j, v) ∷ usage) (h, h') k = elim (Bool-cases (str_eq j key)) [
    | inl same ↦ rw same (k, h')
    | inr other ↦ rw other (h, All-insert key value usage h' k)
  ]

  All-drop : (n : ℕ) (usage : List (String × CommandUsageData)) → All P usage → All P (drop n usage)
  All-drop zero usage h = h
  All-drop (suc n) [] h = tt
  All-drop (suc n) (e ∷ usage) (h, k) = All-drop n usage k

  All-write_entries :
      (entries written : List (String × CommandUsageData))
      → All P entries
      → All P written
      → All P (write_entries entries written)
  unfolding write_entries
  All-write_entries [] written h k = k
  All-write_entries ((key, value) ∷ entries) written (h, h') k =
      All-write_entries entries (insert key value written) h' (All-insert key value written k h)

  All-prune_usage_data :
      (usage : List (String × CommandUsageData)) → All P usage → All P (prune_usage_data usage)
  unfolding prune_usage_data to_keep
  All-prune_usage_data usage h = elim (Bool-cases (leb (length usage) max_entries)) [
    | inl small ↦ rw small h
    | inr large ↦ rw large (
        All-write_entries (to_keep usage) []
          (All-drop (length usage - max_entries) (sort_by used_before usage)
            (All-sort_by used_before P usage h))
          tt)
  ]

-- Whatever holds of every use on record, and of the one that is recorded, holds of every use that is on
-- record after: none is made up, and none is changed but the command's own.
pub All-record_command_usage :
    (P : String × CommandUsageData → Type 0) (command_id : String) (now : ℕ)
    (usage : List (String × CommandUsageData))
    → All P usage
    → P (command_id, record { last_used = now; use_count = count_of (lookup command_id usage) + 1 })
    → All P (record_command_usage command_id now usage)
unfolding record_command_usage
All-record_command_usage P command_id now usage h k =
    elim (Bool-cases (ltb max_entries (length (updated command_id now usage)))) [
      | inr small ↦ rw small inserted
      | inl large ↦ rw large (All-prune_usage_data P (updated command_id now usage) inserted)
    ]
  where
    inserted : All P (updated command_id now usage)
    inserted =
        All-insert P command_id
          (record { last_used = now; use_count = count_of (lookup command_id usage) + 1 }) usage h k
