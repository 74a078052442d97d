-- ===== src/Logger/Examples.antt =====
-- A log of three calls, and a warning that comes again.
use yanta.Prelude.{◌≡◌, refl, List, [], ◌∷◌}
use yanta.Logger.{info, warn, error, is_rate_limited, log, send_to_backend}
use yanta.Logger.Kept.{Logged, push_all, entries_of, latest, push_all_lem}
use yanta.Logger.RateLimit.{Request}

abbrev calls : List Logged
calls =
    record { level = info; message = "a"; time = 1 }
    ∷ record { level = error; message = "b"; time = 2 }
    ∷ record { level = warn; message = "c"; time = 3 }
    ∷ []

push_all_lem_example : push_all warn calls [] ≡ latest (entries_of warn calls)
push_all_lem_example = push_all_lem warn calls

abbrev requests : List Request
requests =
    record { level = info; signature = "info:a"; time = 6000 }
    ∷ record { level = warn; signature = "warn:b"; time = 7000 }
    ∷ []

-- A warning is sent, and the same one five seconds later is not.
twice :
    (log info warn "a" 6000
      (log info warn "a" 1000 (record { log_buffer = []; sent_at = []; sent = [] }))).sent
    ≡ (warn, "a") ∷ []
unfolding log send_to_backend is_rate_limited
twice = refl
