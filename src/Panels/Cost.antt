-- ===== src/Panels/Cost.antt =====
-- frontend/src/components/CostEfficiencyPanel.tsx: the figures that it compares, the file of the button
-- Export ROI, and its two flags. A text of a number is that of the platform.
use migration_safety_engine.NewPlan.Page.{}
use migration_safety_engine.Panels.Parity.{text_or}
use migration_safety_engine.Types.Records.{MigrationRecord}
use migration_safety_engine.Prelude.{
  Bool, List, Option, Text, [], if◌then◌else◌, lit, map, none, some, ◌++◌, ◌∷◌, join,
}

pub record CostFigures (Num : Type 0) : Type 0 where
  pub zero_num : Num
  pub is_truthy_num : Num → Bool
  -- `${n}`, `n.toFixed(2)` and `n.toLocaleString()`
  pub shown_num : Num → Text
  pub fixed2 : Num → Text
  pub locale_num : Num → Text

pub record CostMetrics (Num : Type 0) : Type 0 where
  pub downtime_cost : Num
  pub downtime_seconds : Num
  pub engineering_hours : Num
  pub cost_saved : Num
  pub throughput : Num

pub record Process : Type 0 where
  pub duration : Text
  pub engineers : Text
  pub risk : Text
  pub downtime : Text
  pub data_loss_risk : Text
  pub rollback_time : Text
  pub cost : Text

abbrev pub manual : Process
manual = record {
  duration = lit "3-5 days";
  engineers = lit "2";
  risk = lit "High";
  downtime = lit "1-4 hours";
  data_loss_risk = lit "Possible";
  rollback_time = lit "1-2 hours";
  cost = lit "$4,800-$8,000";
}

-- `r.join(',')` of a row
unfoldable pub join_row : List Text → Text
join_row = join b','

-- `rows.map(r => r.join(',')).join('\n')`
unfoldable pub to_csv : List (List Text) → Text
unfolding join_row join
to_csv rows = join 10 (map join_row rows)

module _ {Num : Type 0} (G : CostFigures Num) where
  open G use {zero_num, is_truthy_num, shown_num, fixed2, locale_num}

  -- `n || 0`
  abbrev pub number_or_zero : Option Num → Num
  number_or_zero none = zero_num
  number_or_zero (some n) = if is_truthy_num n then n else zero_num

  unfoldable pub cost_metrics : MigrationRecord Num → CostMetrics Num
  cost_metrics m = record {
    downtime_cost = number_or_zero m.downtime_cost;
    downtime_seconds = number_or_zero m.downtime_seconds;
    engineering_hours = number_or_zero m.engineering_saved;
    cost_saved = number_or_zero m.cost_saved;
    throughput = number_or_zero m.throughput;
  }

  -- `comparison.mse`
  unfoldable pub engine_process : MigrationRecord Num → Process
  unfolding cost_metrics
  engine_process m = record {
    duration = text_or m.duration (lit "0h 0m");
    engineers = lit "0";
    risk = lit "Zero";
    downtime = shown_num (cost_metrics m).downtime_seconds ++ lit "s";
    data_loss_risk = lit "Impossible";
    rollback_time = lit "2m 34s";
    cost = b'$' ∷ fixed2 (cost_metrics m).downtime_cost;
  }

  unfoldable pub roi_rows : MigrationRecord Num → List (List Text)
  unfolding engine_process cost_metrics
  roi_rows m =
      let mse = engine_process m in
      let metrics = cost_metrics m in
      (lit "Metric" ∷ lit "Manual Process" ∷ lit "MSE Engine" ∷ [])
      ∷ (lit "Duration" ∷ manual.duration ∷ mse.duration ∷ [])
      ∷ (lit "Engineers Required" ∷ manual.engineers ∷ mse.engineers ∷ [])
      ∷ (lit "Risk Level" ∷ manual.risk ∷ mse.risk ∷ [])
      ∷ (lit "Downtime" ∷ manual.downtime ∷ mse.downtime ∷ [])
      ∷ (lit "Data Loss Risk" ∷ manual.data_loss_risk ∷ mse.data_loss_risk ∷ [])
      ∷ (lit "Rollback Time" ∷ manual.rollback_time ∷ mse.rollback_time ∷ [])
      ∷ (lit "Cost (@ $100/hr)" ∷ manual.cost ∷ mse.cost ∷ [])
      ∷ ([] ∷ [] ∷ [] ∷ [])
      ∷ (lit "TIME SAVED" ∷ [] ∷ (shown_num metrics.engineering_hours ++ lit " hours") ∷ [])
      ∷ (lit "COST SAVED" ∷ [] ∷ (b'$' ∷ locale_num metrics.cost_saved) ∷ [])
      ∷ (lit "THROUGHPUT (AVG)" ∷ [] ∷ (locale_num metrics.throughput ++ lit " rows/sec") ∷ [])
      ∷ []

  -- the content of the exported file
  unfoldable pub roi_csv : MigrationRecord Num → Text
  unfolding to_csv roi_rows
  roi_csv m = to_csv (roi_rows m)

  -- the text of the button Share
  unfoldable pub share_text : MigrationRecord Num → Text
  unfolding engine_process cost_metrics
  share_text m =
      let mse = engine_process m in
      join 10 (
        (lit "Migration Safety Engine " ++ 0x2014 ∷ lit " ROI Report")
        ∷ (lit "Migration: " ++ text_or (some m.migration_id) (lit "N/A"))
        ∷ (lit "Table: " ++ text_or m.table (lit "N/A"))
        ∷ (lit "Duration: " ++ mse.duration)
        ∷ (lit "Downtime: " ++ mse.downtime)
        ∷ (lit "Cost: " ++ (mse.cost ++ (lit " (vs " ++ (manual.cost ++ lit " manual)"))))
        ∷ (lit "Time Saved: " ++ (shown_num (cost_metrics m).engineering_hours ++ lit " hours"))
        ∷ (lit "Risk: " ++ (mse.risk ++ (lit " (vs " ++ (manual.risk ++ lit " manual)"))))
        ∷ [])

  -- the name of the exported file
  unfoldable pub roi_file : MigrationRecord Num → Text
  roi_file m =
      lit "mse-roi-report-" ++ (text_or (some m.migration_id) (lit "migration") ++ lit ".csv")
