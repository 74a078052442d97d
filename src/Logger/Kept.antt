-- ===== src/Logger/Kept.antt =====
-- The log keeps the latest two hundred entries.
use yanta.Prelude.{
  drop, length-drop, drop-append, zero, ◌<◌, ◌≡◌, refl, sym, ap, ◌∙◌, ℕ, suc, ◌+◌, ◌-◌, ◌≤◌, ltb,
  true, false, Bool-cases, inl, inr, ◌⊎◌, String, List, [], ◌∷◌, ◌++◌, length, length-append, arith,
  if◌then◌else◌,
}
use mathlib.Core.List.{append_assoc, append-nil}
use yanta.Logger.{LogLevel, LogEntry, log_buffer_size, should_log, shift, push_entry}

-- What is logged: a level, a message and its time.
pub record Logged : Type 0 where
  pub level : LogLevel
  pub message : String
  pub time : ℕ

abbrev pub push_all : LogLevel → List Logged → List LogEntry → List LogEntry
push_all min_level [] log_buffer = log_buffer
push_all min_level (c ∷ calls) log_buffer =
    push_all min_level calls (push_entry min_level c.level c.message c.time log_buffer)

-- The entries of what reaches the minimal level.
abbrev pub entries_of : LogLevel → List Logged → List LogEntry
entries_of min_level [] = []
entries_of min_level (c ∷ calls) =
    let rest = entries_of min_level calls in
    if should_log min_level c.level
    then record { level = c.level; message = c.message; timestamp = c.time } ∷ rest
    else rest

-- The latest entries, as many as the log holds.
abbrev pub latest : List LogEntry → List LogEntry
latest xs = drop (length xs - log_buffer_size) xs

shift-drop : (n : ℕ) (xs : List LogEntry) → shift (drop n xs) ≡ drop (suc n) xs
shift-drop zero [] = refl
shift-drop zero (x ∷ xs) = refl
shift-drop (suc n) [] = refl
shift-drop (suc n) (x ∷ xs) = shift-drop n xs

latest-append :
    (xs : List LogEntry) (e : LogEntry)
    → (if ltb log_buffer_size (length (latest xs ++ (e ∷ [])))
        then shift (latest xs ++ (e ∷ []))
        else latest xs ++ (e ∷ []))
      ≡ latest (xs ++ (e ∷ []))
latest-append xs e = elim (lt-or-ge (length xs) log_buffer_size) [
  | inl few ↦ rw (ltb-false few, none_dropped few, none_dropped_after few) refl
  | inr full ↦
      rw (ltb-true full, sym (drop-append (length xs - log_buffer_size) xs (e ∷ []) (omega arith)))
        (shift-drop (length xs - log_buffer_size) (xs ++ (e ∷ []))
          ∙ ap (λ n. drop n (xs ++ (e ∷ []))) (one_more full))
]
  where
    lt-or-ge : (a b : ℕ) → (a < b) ⊎ (b ≤ a)
    lt-or-ge a b = omega arith

    length_latest : length (latest xs ++ (e ∷ [])) ≡ length xs - (length xs - log_buffer_size) + 1
    length_latest =
        omega
          (arith, length-append (latest xs) (e ∷ []), length-drop (length xs - log_buffer_size) xs)

    ltb-false :
        length xs < log_buffer_size → ltb log_buffer_size (length (latest xs ++ (e ∷ []))) ≡ false
    ltb-false few = ground (arith, length_latest)

    ltb-true :
        log_buffer_size ≤ length xs → ltb log_buffer_size (length (latest xs ++ (e ∷ []))) ≡ true
    ltb-true full = ground (arith, length_latest)

    none_dropped : length xs < log_buffer_size → length xs - log_buffer_size ≡ 0
    none_dropped few = omega arith

    none_dropped_after : length xs < log_buffer_size → length (xs ++ (e ∷ [])) - log_buffer_size ≡ 0
    none_dropped_after few = omega (arith, length-append xs (e ∷ []))

    one_more :
        log_buffer_size ≤ length xs
        → suc (length xs - log_buffer_size) ≡ length (xs ++ (e ∷ [])) - log_buffer_size
    one_more full = omega (arith, length-append xs (e ∷ []))

push_all-latest :
    (min_level : LogLevel) (calls : List Logged) (before : List LogEntry)
    → push_all min_level calls (latest before) ≡ latest (before ++ entries_of min_level calls)
unfolding push_entry
push_all-latest min_level [] before = ap latest (sym (append-nil before))
push_all-latest min_level (c ∷ calls) before = elim (Bool-cases (should_log min_level c.level)) [
  | inr low ↦ rw low (push_all-latest min_level calls before)
  | inl high ↦ rw high (
      ap (push_all min_level calls) (latest-append before entry)
      ∙ push_all-latest min_level calls (before ++ (entry ∷ []))
      ∙ ap latest (append_assoc before (entry ∷ []) (entries_of min_level calls)))
]
  where
    entry : LogEntry
    entry = record { level = c.level; message = c.message; timestamp = c.time }

-- After any sequence of calls the log holds the latest two hundred of the messages that reach the
-- minimal level, in their order, or all of them where they are fewer.
pub push_all_lem :
    (min_level : LogLevel) (calls : List Logged)
    → push_all min_level calls [] ≡ latest (entries_of min_level calls)
push_all_lem min_level calls = push_all-latest min_level calls []
