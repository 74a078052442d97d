-- ===== src/Commands/Examples.antt =====
-- A palette of three commands, of which two were used.
use yanta.Prelude.{◌≡◌, refl, ℕ, ◌≤◌, none, some, String, List, [], ◌∷◌, length, lookup, arith}
use yanta.Commands.{CommandUsageData, CommandOption, record_command_usage, max_entries}
use yanta.Commands.Usage.{length-record_command_usage-le, lookup-record_command_usage}

abbrev command : String → CommandOption
command id = record { id = id; text = id; group = none }

abbrev commands : List CommandOption
commands = command "new" ∷ command "open" ∷ command "quit" ∷ []

abbrev usage : List (String × CommandUsageData)
usage =
    ("open", record { last_used = 5; use_count = 1 })
    ∷ ("quit", record { last_used = 90000000; use_count = 30 })
    ∷ []

abbrev now : ℕ
now = 100000000

length-record_command_usage-le_example : length (record_command_usage "new" now usage) ≤ max_entries
length-record_command_usage-le_example = length-record_command_usage-le "new" now usage

lookup-record_command_usage_example :
    lookup "quit" (record_command_usage "quit" now usage)
    ≡ some (record { last_used = now; use_count = 31 })
lookup-record_command_usage_example =
    lookup-record_command_usage "quit" now usage (omega arith) (refl, (refl, tt))
