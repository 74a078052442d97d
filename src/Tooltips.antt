-- ===== src/Tooltips.antt =====
-- How often a tooltip was seen, frontend/src/shared/stores/tooltipUsage.store.ts, with times in
-- milliseconds.
pub mod Fading
pub mod Examples
use yanta.Prelude.{
  ℕ, ◌+◌, ◌-◌, Bool, true, false, Option, none, some, List, String, lookup, insert, ltb,
  if◌then◌else◌,
}

pub record TooltipUsageData : Type 0 where
  pub seen_count : ℕ
  pub last_seen : ℕ

abbrev pub fade_threshold : ℕ
fade_threshold = 5

abbrev pub dormancy_ms : ℕ
dormancy_ms = 2592000000

abbrev pub seen_before : Option TooltipUsageData → ℕ
seen_before none = 0
seen_before (some data_) = data_.seen_count

unfoldable pub record_tooltip_view :
    ℕ → String → List (String × TooltipUsageData) → List (String × TooltipUsageData)
record_tooltip_view now id usage =
    insert id (record { seen_count = seen_before (lookup id usage) + 1; last_seen = now }) usage

abbrev pub should_show : ℕ → Option TooltipUsageData → Bool
should_show now none = true
should_show now (some data_) =
    if ltb data_.seen_count fade_threshold then true else ltb dormancy_ms (now - data_.last_seen)

unfoldable pub should_show_tooltip : ℕ → Bool → String → List (String × TooltipUsageData) → Bool
should_show_tooltip now global_disabled id usage =
    if global_disabled then false else should_show now (lookup id usage)
