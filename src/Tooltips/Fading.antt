-- ===== src/Tooltips/Fading.antt =====
-- A tooltip fades once it was seen often enough.
use yanta.Prelude.{
  ℕ, ◌+◌, ◌≤◌, ◌≡◌, refl, ap, ◌∙◌, false, some, List, [], ◌∷◌, String, lookup, length, arith,
  lookup-insert, eq_refl,
}
use yanta.Tooltips.{
  TooltipUsageData, dormancy_ms, seen_before, record_tooltip_view, should_show, should_show_tooltip,
}

unfoldable pub views :
    List ℕ → String → List (String × TooltipUsageData) → List (String × TooltipUsageData)
views [] id usage = usage
views (t ∷ ts) id usage = views ts id (record_tooltip_view t id usage)

lookup-record_tooltip_view :
    (t : ℕ) (id : String) (usage : List (String × TooltipUsageData))
    → lookup id (record_tooltip_view t id usage)
      ≡ some (record { seen_count = seen_before (lookup id usage) + 1; last_seen = t })
unfolding record_tooltip_view
lookup-record_tooltip_view t id usage =
    lookup-insert id id (record { seen_count = seen_before (lookup id usage) + 1; last_seen = t })
      usage
    ∙ rw (eq_refl id) refl

seen_before-views :
    (ts : List ℕ) (id : String) (usage : List (String × TooltipUsageData))
    → seen_before (lookup id (views ts id usage)) ≡ seen_before (lookup id usage) + length ts
unfolding views
seen_before-views [] id usage = omega arith
seen_before-views (t ∷ ts) id usage = omega (
  arith,
  seen_before-views ts id (record_tooltip_view t id usage),
  ap seen_before (lookup-record_tooltip_view t id usage),
)

-- Seen at least four times and then once more at a time t, a tooltip is not shown until the dormancy
-- after t has passed.
pub should_show_tooltip-views :
    (ts : List ℕ) (t now : ℕ) (id : String) (usage : List (String × TooltipUsageData))
    → 4 ≤ length ts
    → now ≤ t + dormancy_ms
    → should_show_tooltip now false id (record_tooltip_view t id (views ts id usage)) ≡ false
unfolding should_show_tooltip
should_show_tooltip-views ts t now id usage often soon =
    ap (should_show now) (lookup-record_tooltip_view t id (views ts id usage))
    ∙ ground (arith, seen_before-views ts id usage)
