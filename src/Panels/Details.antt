-- ===== src/Panels/Details.antt =====
-- The state of frontend/src/components/CostEfficiencyPanel.tsx, its buttons, its summary and its detailed view.
use migration_safety_engine.Panels.Parity.{text_or}
use migration_safety_engine.Types.Records.{MigrationRecord}
use migration_safety_engine.Panels.Cost.{CostFigures, cost_metrics}
use migration_safety_engine.Prelude.{
  Bool, List, Option, Text, [], false, if◌then◌else◌, lit, none, not, some, true, ℕ, ◌++◌, ◌+◌, ◌-◌,
  ◌==◌, ◌∷◌,
}

-- The two flags, and how many timeouts will take back `copied`.
pub record CostPanel : Type 0 where
  pub show_detailed : Bool
  pub copied : Bool
  pub timeouts : ℕ

abbrev pub first_cost : CostPanel
first_cost = record { show_detailed = false; copied = false; timeouts = 0 }

-- `handleShare`: whether the clipboard accepts the text or the text area is the fallback, the flag is set
unfoldable pub shared : CostPanel → CostPanel
shared s = record s { copied = true; timeouts = s.timeouts + 1 }

unfoldable pub share_timeout : CostPanel → CostPanel
share_timeout s =
    if s.timeouts == 0 then s else record s { copied = false; timeouts = s.timeouts - 1 }

unfoldable pub toggle_detailed : CostPanel → CostPanel
toggle_detailed s = record s { show_detailed = not s.show_detailed }

-- the texts of the two buttons
unfoldable pub share_label : CostPanel → Text
share_label s = if s.copied then lit "Copied!" else lit "Share with Team"

unfoldable pub detailed_label : CostPanel → Text
detailed_label s =
    if s.show_detailed then lit "Hide Detailed Metrics" else lit "View Detailed Metrics"

-- What the detailed view reads from the record with a cast: fields that its type does not have.
pub record CastFields (Num : Type 0) : Type 0 where
  pub batch_size : Option Num
  pub throttle_ms : Option Num
  pub total_rows : Option Num
  pub rows_scanned : Option Num
  pub rows_modified : Option Num
  pub rows_diverged : Option Num
  pub started_at : Option Text
  pub completed_at : Option Text

module _ {Num : Type 0} (G : CostFigures Num) (num : ℕ → Num) where
  open G use {is_truthy_num, shown_num, locale_num}

  -- `n || d`
  abbrev number_or : Option Num → Num → Num
  number_or none d = d
  number_or (some n) d = if is_truthy_num n then n else d

  -- the summary: label and value
  unfoldable pub summary_items : MigrationRecord Num → List (Text × Text)
  unfolding cost_metrics
  summary_items m =
      (lit "TIME SAVED:", shown_num (cost_metrics G m).engineering_hours ++ lit " hours")
      ∷ (lit "COST SAVED:", b'$' ∷ locale_num (cost_metrics G m).cost_saved)
      ∷ (lit "RISK AVOIDED:", lit "Potential outage, data loss, 2+ hour recovery")
      ∷ []

  -- the cards and the line of the detailed view, where it is shown
  unfoldable pub detailed_cards : CastFields Num → List (Text × Text)
  detailed_cards f =
      (lit "BATCH SIZE", shown_num (number_or f.batch_size (num 1000)))
      ∷ (lit "THROTTLE MS", shown_num (number_or f.throttle_ms (num 100)) ++ lit "ms")
      ∷ (lit "TOTAL ROWS", locale_num (number_or f.total_rows (num 0)))
      ∷ (lit "ROWS SCANNED", locale_num (number_or f.rows_scanned (num 0)))
      ∷ (lit "ROWS MODIFIED", locale_num (number_or f.rows_modified (num 0)))
      ∷ (lit "ROWS DIVERGED", locale_num (number_or f.rows_diverged (num 0)))
      ∷ []

  unfoldable pub detailed_line : MigrationRecord Num → CastFields Num → List (Text × Text)
  detailed_line m f =
      (lit "Plan ID:", text_or (some m.plan_id) (lit "N/A"))
      ∷ (lit "Started:", text_or f.started_at (lit "N/A"))
      ∷ (lit "Completed:", text_or f.completed_at (lit "N/A"))
      ∷ []

  unfoldable pub detailed_view :
      CostPanel
      → MigrationRecord Num
      → CastFields Num
      → Option (List (Text × Text) × List (Text × Text))
  unfolding detailed_cards detailed_line
  detailed_view s m f = if s.show_detailed then some (detailed_cards f, detailed_line m f) else none
