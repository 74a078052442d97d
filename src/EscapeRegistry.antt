-- ===== src/EscapeRegistry.antt =====
-- The registry of Escape handlers, frontend/src/shared/stores/escapeRegistry.store.ts.  An event's
-- type `E` is a parameter; a handler answers `none` where the source's returns void.
pub mod Order
pub mod Examples
use Prim.Native.String
use yanta.Prelude.{
  ℕ, suc, Bool, true, false, not, Option, none, some, List, [], ◌∷◌, ◌++◌, String, str_eq, filter,
  last?,
}
use yanta.Decimal.{show}

unfoldable pub escape_id : ℕ → String
escape_id n = String.◌++◌ "escape-" (show n)

pub record RegistryEntry {ℓ} (E : Type ℓ) : Type ℓ where
  pub id : String
  pub handler : E → Option Bool

-- `next_id` is the module's counter, which `reset` leaves alone.
pub record EscapeRegistry {ℓ} (E : Type ℓ) : Type ℓ where
  pub next_id : ℕ
  pub stack : List (RegistryEntry E)

abbrev pub has_id {ℓ} : {E : Type ℓ} → String → RegistryEntry E → Bool
has_id id item = str_eq item.id id

-- The answer is handled unless it is false; with no handler nothing is handled.
abbrev pub handled : Option Bool → Bool
handled none = true
handled (some b) = b

abbrev pub run_handler {ℓ} : {E : Type ℓ} → E → Option (RegistryEntry E) → Bool
run_handler e none = false
run_handler e (some top) = handled (top.handler e)

module _ {ℓ} {E : Type ℓ} where
  abbrev pub no_handlers : EscapeRegistry E
  no_handlers = record { next_id = 0; stack = [] }

  unfoldable pub push : (E → Option Bool) → EscapeRegistry E → String × EscapeRegistry E
  push handler s =
      let id = escape_id s.next_id in
      (
        id,
        record {
          next_id = suc s.next_id;
          stack = s.stack ++ (record { id = id; handler = handler } ∷ []);
        },
      )

  unfoldable pub remove : String → EscapeRegistry E → EscapeRegistry E
  remove id s = record s { stack = filter (λ item. not (has_id id item)) s.stack }

  unfoldable pub reset : EscapeRegistry E → EscapeRegistry E
  reset s = record s { stack = [] }

  unfoldable pub dispatch_escape : E → EscapeRegistry E → Bool
  dispatch_escape e s = run_handler e (last? s.stack)
