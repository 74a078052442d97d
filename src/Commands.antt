-- ===== src/Commands.antt =====
-- The order of the palette's commands and the record of their use,
-- frontend/src/command-palette/utils/commandSorting.ts and
-- frontend/src/shared/stores/commandUsage.store.ts.  Times are in milliseconds; the entries of a
-- record stand in the order in which they were written first.
pub mod Order
pub mod Usage
pub mod Examples
use yanta.Prelude.{
  ℕ, zero, suc, ◌+◌, ◌-◌, ◌*◌, min, ◌==◌, ltb, leb, Bool, true, false, Option, none, some, String,
  List, [], ◌∷◌, length, map, filter, drop, take, lookup, insert, if◌then◌else◌, sort_by,
}

pub record CommandUsageData : Type 0 where
  pub last_used : ℕ
  pub use_count : ℕ

-- The icon, the action and the other fields that the order does not read are left out.
pub record CommandOption : Type 0 where
  pub id : String
  pub text : String
  pub group : Option String

abbrev pub hour_ms : ℕ
hour_ms = 3600000

abbrev pub day_ms : ℕ
day_ms = 86400000

abbrev pub week_ms : ℕ
week_ms = 604800000

-- The age of a use in the future, negative in the code, is below all the bounds, as 0 is.
abbrev pub calculate_recency_score : ℕ → ℕ → ℕ
calculate_recency_score last_used now =
    if ltb (now - last_used) hour_ms
    then 50
    else if ltb (now - last_used) day_ms
    then 30
    else if ltb (now - last_used) week_ms
    then 15
    else 5

abbrev pub calculate_frequency_score : ℕ → ℕ
calculate_frequency_score use_count = min (use_count * 2) 20

abbrev pub score_of : ℕ → Option CommandUsageData → ℕ
score_of now none = 0
score_of now (some u) =
    calculate_recency_score u.last_used now + calculate_frequency_score u.use_count

unfoldable pub calculate_usage_score : String → List (String × CommandUsageData) → ℕ → ℕ
calculate_usage_score command_id usage now = score_of now (lookup command_id usage)

pub record CommandWithScore : Type 0 where
  pub command : CommandOption
  pub score : ℕ
  pub original_index : ℕ

abbrev pub with_scores :
    List (String × CommandUsageData) → ℕ → ℕ → List CommandOption → List CommandWithScore
with_scores usage now index [] = []
with_scores usage now index (c ∷ commands) =
    record { command = c; score = calculate_usage_score c.id usage now; original_index = index }
    ∷ with_scores usage now (suc index) commands

-- `compare(a, b) <= 0`
abbrev pub before : CommandWithScore → CommandWithScore → Bool
before a b =
    if a.score == b.score then leb a.original_index b.original_index else ltb b.score a.score

unfoldable pub sort_commands_by_usage :
    List CommandOption → List (String × CommandUsageData) → ℕ → List CommandOption
sort_commands_by_usage commands usage now =
    map (λ c. c.command) (sort_by before (with_scores usage now 0 commands))

abbrev pub used_within : ℕ → ℕ → Option CommandUsageData → Bool
used_within window now none = false
used_within window now (some u) = ltb (now - u.last_used) window

abbrev pub last_used_or_zero : Option CommandUsageData → ℕ
last_used_or_zero none = 0
last_used_or_zero (some u) = u.last_used

abbrev pub used_later : List (String × CommandUsageData) → CommandOption → CommandOption → Bool
used_later usage a b =
    leb (last_used_or_zero (lookup b.id usage)) (last_used_or_zero (lookup a.id usage))

unfoldable pub get_recently_used_commands :
    List CommandOption → List (String × CommandUsageData) → ℕ → ℕ → List CommandOption
get_recently_used_commands commands usage limit now = take limit (
    sort_by (used_later usage) (filter (λ c. used_within week_ms now (lookup c.id usage)) commands))

unfoldable pub is_recently_used : String → List (String × CommandUsageData) → ℕ → Bool
is_recently_used command_id usage now = used_within hour_ms now (lookup command_id usage)

unfoldable pub get_top_recent_command_ids : List (String × CommandUsageData) → ℕ → ℕ → List String
get_top_recent_command_ids usage limit now =
    map (λ e. e.0)
      (take limit (
        sort_by (λ a b. leb b.1.last_used a.1.last_used)
          (filter (λ e. ltb (now - e.1.last_used) day_ms) usage)))

abbrev pub max_entries : ℕ
max_entries = 100

abbrev pub used_before : (String × CommandUsageData) → (String × CommandUsageData) → Bool
used_before a b = leb a.1.last_used b.1.last_used

unfoldable pub to_keep : List (String × CommandUsageData) → List (String × CommandUsageData)
to_keep usage = drop (length usage - max_entries) (sort_by used_before usage)

-- Writes the entries to a record one after the other.
unfoldable pub write_entries :
    List (String × CommandUsageData)
    → List (String × CommandUsageData)
    → List (String × CommandUsageData)
write_entries [] written = written
write_entries ((key, value) ∷ entries) written = write_entries entries (insert key value written)

unfoldable pub prune_usage_data :
    List (String × CommandUsageData) → List (String × CommandUsageData)
prune_usage_data usage =
    if leb (length usage) max_entries then usage else write_entries (to_keep usage) []

abbrev pub count_of : Option CommandUsageData → ℕ
count_of none = 0
count_of (some u) = u.use_count

abbrev pub updated :
    String → ℕ → List (String × CommandUsageData) → List (String × CommandUsageData)
updated command_id now usage =
    insert command_id
      (record { last_used = now; use_count = count_of (lookup command_id usage) + 1 }) usage

unfoldable pub record_command_usage :
    String → ℕ → List (String × CommandUsageData) → List (String × CommandUsageData)
record_command_usage command_id now usage =
    if ltb max_entries (length (updated command_id now usage))
    then prune_usage_data (updated command_id now usage)
    else updated command_id now usage
