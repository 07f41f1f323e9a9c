-- ===== src/Panels/Metrics.antt =====
-- frontend/src/components/MetricsPanel.tsx: its state, and what its charts compute from the metrics. The
-- values are those that the parser of the metrics lets through, so none of them is NaN.
use mathlib.Core.Option
use migration_safety_engine.Dict.{get}
use migration_safety_engine.Detail.View.{is_live}
use migration_safety_engine.Poll.Timers.{Timers, poll_again}
use migration_safety_engine.Api.Effects.{Result, ok, thrown}
use migration_safety_engine.Prometheus.Query.{MigrationMetrics, extract_migration_metrics}
use migration_safety_engine.Prometheus.Parse.{MetricMap}
use migration_safety_engine.Prometheus.Floats.{Floats}
use migration_safety_engine.Prelude.{
  ◌*◌, ◌++◌, ◌+◌, Bool, List, Option, Text, [], false, if◌then◌else◌, length, lit, ltb, none, not,
  or_else, some, ℕ, ◌||◌, ◌∷◌, get_elem?, take, suc,
}

-- Literals of the source (`digits / 10 ^ places`) and the texts of numbers.
pub record Display (F : Floats) : Type 0 where
  pub literal : (digits places : ℕ) → F.Num
  pub fixed1 : F.Num → Text
  pub locale : F.Num → Text

abbrev canary_marks : List ℕ
canary_marks = 0 ∷ 1 ∷ 5 ∷ 25 ∷ 100 ∷ []

-- `stateColors[state] || '#818cf8'`
abbrev pub state_bar_color : Text → Text
state_bar_color s =
    or_else
      (get s (
        (lit "Pending", lit "#a1a1aa")
        ∷ (lit "Expanding", lit "#818cf8")
        ∷ (lit "Backfilling", lit "#fbbf24")
        ∷ (lit "Verifying", lit "#34d399")
        ∷ (lit "Canary", lit "#34d399")
        ∷ (lit "Cutover", lit "#818cf8")
        ∷ (lit "Contracting", lit "#34d399")
        ∷ (lit "Done", lit "#34d399")
        ∷ (lit "RollingBack", lit "#f87171")
        ∷ (lit "RolledBack", lit "#f87171")
        ∷ []))
      (lit "#818cf8")

module _ (F : Floats) (T : Display F) where
  open F use {Num, zero_num, one, hundred, mul, div, gt}
  open T use {literal, fixed1, locale}

  abbrev max_num : Num → Num → Num
  max_num a b = if gt a b then a else b

  abbrev min_num : Num → Num → Num
  min_num a b = if gt b a then a else b

  -- `a >= b`
  abbrev at_least : Num → Num → Bool
  at_least a b = not (gt b a)

  -- `pct` of `ParityGauge`, its color and its text
  unfoldable pub gauge_pct : Num → Num
  gauge_pct value = min_num (max_num value zero_num) one

  unfoldable pub gauge_color : Num → Text
  unfolding gauge_pct
  gauge_color value =
      if at_least (gauge_pct value) (literal 999 3)
      then lit "var(--success)"
      else if at_least (gauge_pct value) (literal 99 2)
      then lit "var(--warning)"
      else lit "var(--danger)"

  unfoldable pub gauge_text : Num → Text
  unfolding gauge_pct
  gauge_text value = fixed1 (mul (gauge_pct value) hundred) ++ lit "%"

  -- `pct` of `BackfillChart`, the width of its bar, and its texts
  unfoldable pub bar_pct : Num → Num → Num
  bar_pct done_rows total =
      if gt total zero_num then mul (div done_rows total) hundred else zero_num

  unfoldable pub bar_width : Num → Num
  bar_width pct = max_num zero_num (div (mul (literal 260 0) pct) hundred)

  unfoldable pub bar_texts : Num → Num → Text × Text
  unfolding bar_pct
  bar_texts done_rows total = (
    locale done_rows ++ (lit " / " ++ (locale total ++ lit " rows")),
    fixed1 (bar_pct done_rows total) ++ lit "%",
  )

  -- `steps.findIndex(s => s >= pct)`
  unfoldable pub find_mark : Num → List ℕ → Option ℕ
  find_mark pct [] = none
  find_mark pct (s ∷ ss) =
      let rest = find_mark pct ss in
      if at_least (literal s 0) pct then some 0 else Option.map suc rest

  unfoldable pub active_idx : Num → Option ℕ
  unfolding find_mark
  active_idx pct = find_mark pct canary_marks

  unfoldable pub current_mark : Num → ℕ
  unfolding active_idx
  current_mark pct = elim (active_idx pct) [
    | none ↦ 100
    | some i ↦ or_else (get_elem? canary_marks i) 100
  ]

  -- `steps.slice(0, activeIdx + 1)`, where a missing index is -1
  unfoldable pub active_marks : Num → List ℕ
  unfolding active_idx
  active_marks pct = elim (active_idx pct) [ none ↦ [] | some i ↦ take (i + 1) canary_marks ]

  -- the abscissa of the step `i`: `padL + (i / 4) * chartW`
  abbrev pub mark_x : ℕ → ℕ
  mark_x i = 30 + i * 40

  -- the color and the text of `RollbackCard`
  unfoldable pub rollback_card : Num → Text × Text
  rollback_card count =
      if gt count zero_num
      then (lit "var(--danger)", lit "SLO breach triggered")
      else (lit "var(--success)", lit "No breaches")

  pub record MetricsPanel : Type 0 where
    pub metrics : Option (MigrationMetrics F)
    pub error : Text
    pub timers : Timers

  -- `fetchMetrics`, from what the text of the metrics comes to
  unfoldable pub metrics_fetched : Text → Text → Result (MetricMap F) → MetricsPanel → MetricsPanel
  unfolding extract_migration_metrics
  metrics_fetched migration_id plan_id (ok raw) p = record p {
    metrics = some (extract_migration_metrics F raw migration_id plan_id);
    error = [];
  }
  metrics_fetched migration_id plan_id (thrown message) p = record p { error = message }

  -- the effect on `[isLive, fetchMetrics]`
  unfoldable pub live_changed : Bool → MetricsPanel → MetricsPanel
  unfolding poll_again
  live_changed is_live p = record p { timers = poll_again is_live p.timers }

  -- `hasData`
  unfoldable pub has_data : Option (MigrationMetrics F) → Bool
  has_data none = false
  has_data (some m) =
      gt m.backfill_total zero_num
      || gt m.parity zero_num
      || gt m.canary_pct zero_num
      || gt m.rollbacks zero_num
      || ltb 0 (length m.transitions)
