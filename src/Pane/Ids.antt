-- ===== src/Pane/Ids.antt =====
-- frontend/src/pane/utils/paneId.ts: `pane-<Date.now()>-<counter>`. `clock k` is what `Date.now()`
-- gives at the k-th id; nothing is assumed of it.
pub mod Unique
use Prim.Native.String
use yanta.Prelude.{ℕ, ◌+◌, String}
use yanta.Decimal.{show}

unfoldable pub pane_id : ℕ → ℕ → String
pane_id now counter = String.◌++◌ "pane-" (String.◌++◌ (show now) (String.◌++◌ "-" (show counter)))

unfoldable pub generate_pane_id : (ℕ → ℕ) → ℕ → String × ℕ
generate_pane_id clock counter = (pane_id (clock (counter + 1)) (counter + 1), counter + 1)
