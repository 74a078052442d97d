-- ===== src/Logger.antt =====
-- The frontend's log, frontend/src/shared/utils/backendLogger.ts: the entries that are kept, and which
-- messages are sent to the backend.  A message is formatted already; times are in milliseconds.
pub mod Kept
pub mod RateLimit
pub mod Examples
use yanta.Prelude.{
  ℕ, ◌+◌, ◌-◌, ltb, leb, ◌==◌, Bool, true, false, not, ◌&&◌, ◌||◌, Option, none, some, String, List,
  [], ◌∷◌, ◌++◌, length, lookup, insert, if◌then◌else◌,
}
use Prim.Native.String.{◌++◌ as string_append}

pub data LogLevel : Type 0 where
  debug info warn error : LogLevel

pub record LogEntry : Type 0 where
  pub level : LogLevel
  pub message : String
  pub timestamp : ℕ

abbrev pub log_buffer_size : ℕ
log_buffer_size = 200

abbrev pub rate_limit_window_ms : ℕ
rate_limit_window_ms = 10000

abbrev pub level_priority : LogLevel → ℕ
level_priority debug = 0
level_priority info = 1
level_priority warn = 2
level_priority error = 3

abbrev pub level_name : LogLevel → String
level_name debug = "debug"
level_name info = "info"
level_name warn = "warn"
level_name error = "error"

abbrev pub should_log : LogLevel → LogLevel → Bool
should_log min_level level = leb (level_priority min_level) (level_priority level)

abbrev pub shift {ℓ} : {A : Type ℓ} → List A → List A
shift [] = []
shift (x ∷ xs) = xs

unfoldable pub push_entry : LogLevel → LogLevel → String → ℕ → List LogEntry → List LogEntry
push_entry min_level level message now log_buffer =
    let pushed =
      log_buffer ++ (record { level = level; message = message; timestamp = now } ∷ []) in
    if should_log min_level level
    then if ltb log_buffer_size (length pushed) then shift pushed else pushed
    else log_buffer

-- `level === "debug" || level === "info"`
abbrev pub is_unlimited : LogLevel → Bool
is_unlimited debug = true
is_unlimited info = true
is_unlimited warn = false
is_unlimited error = false

-- A last time of 0 counts as none.
abbrev pub is_too_soon : ℕ → Option ℕ → Bool
is_too_soon now none = false
is_too_soon now (some last) = not (last == 0) && ltb (now - last) rate_limit_window_ms

abbrev pub make_room : List (String × ℕ) → List (String × ℕ)
make_room sent_at = if ltb 500 (length sent_at) then [] else sent_at

-- Whether the message is held back, and the times afterwards.
unfoldable pub is_rate_limited :
    LogLevel → String → ℕ → List (String × ℕ) → Bool × List (String × ℕ)
is_rate_limited level signature now sent_at =
    if is_unlimited level
    then (false, sent_at)
    else if is_too_soon now (lookup signature sent_at)
    then (true, sent_at)
    else (false, insert signature now (make_room sent_at))

abbrev pub signature_of : LogLevel → String → String
signature_of level message = string_append (level_name level) (string_append ":" message)

-- The variables of the module, and the messages that the backend was sent, in their order.
pub record Log : Type 0 where
  pub log_buffer : List LogEntry
  pub sent_at : List (String × ℕ)
  pub sent : List (LogLevel × String)

unfoldable pub send_to_backend : LogLevel → LogLevel → String → ℕ → Log → Log
send_to_backend min_level level message now l =
    let limited = is_rate_limited level (signature_of level message) now l.sent_at in
    if should_log min_level level
    then record l {
      sent_at = limited.1;
      sent = if limited.0 then l.sent else l.sent ++ ((level, message) ∷ []);
    }
    else l

-- `logDebug`, `logInfo`, `logWarn` and `logError`.
unfoldable pub log : LogLevel → LogLevel → String → ℕ → Log → Log
log min_level level message now l =
    send_to_backend min_level level message now
      (record l { log_buffer = push_entry min_level level message now l.log_buffer })
