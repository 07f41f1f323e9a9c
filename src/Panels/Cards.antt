-- ===== src/Panels/Cards.antt =====
-- The cards and tables of frontend/src/components/ExecutiveHealthPanel.tsx, DataParityPanel.tsx and
-- CostEfficiencyPanel.tsx.
use migration_safety_engine.Chart.Panel.{events_list}
use migration_safety_engine.Types.Records.{
  complete, MigrationRecord, RollbackKind, drop_kind, breach, trip, init, drain, verify,
}
use migration_safety_engine.Panels.Parity.{Figures, rows_text, text_or, or_zero, mutations}
use migration_safety_engine.Panels.Cost.{CostFigures, cost_metrics, engine_process, manual}
use migration_safety_engine.Prelude.{
  Bool, List, Option, Text, [], false, if◌then◌else◌, lit, map, none, or_else, some, ◌++◌, ◌∷◌,
}
use mathlib.Core.Option
use migration_safety_engine.Panels.Health.{
  throttled, rolled_back, Counts, get_outcome, get_throttle_events,
}

-- a card: its value and its two details
pub record Card : Type 0 where
  pub value : Text
  pub details : List Text

module _ {Num : Type 0} where
  -- `record.plan?.table`
  unfoldable pub plan_table : MigrationRecord Num → Option Text
  plan_table m = Option.map (λ p. p.table) m.plan

module _ {Num : Type 0} (G : Figures Num) (hundred : Num) where
  open G use {same, zero_num, is_truthy_num, locale, shown}

  abbrev is_hundred : Option Num → Bool
  is_hundred none = false
  is_hundred (some n) = same n hundred

  unfoldable pub subtitle : MigrationRecord Num → Text
  unfolding plan_table rows_text
  subtitle m =
      text_or (plan_table m) (lit "Unknown")
      ++ (lit " • "
          ++ (rows_text G m.row_count ++ (lit " rows • " ++ text_or m.duration (lit "0h 0m"))))

  -- the three cards of the executive panel
  unfoldable pub parity_card : MigrationRecord Num → Card
  unfolding or_zero rows_text
  parity_card m = record {
    value =
        if is_hundred m.data_parity
        then lit "✅ 100%"
        else shown (or_zero G m.data_parity) ++ lit "%";
    details =
        (rows_text G m.rows_verified ++ lit " rows verified")
        ∷ (shown (or_zero G m.drift_detected) ++ lit " drift detected")
        ∷ [];
  }

  unfoldable pub averted_card : MigrationRecord Num → Card
  unfolding or_zero
  averted_card m = record {
    value = shown (or_zero G m.throttle_events) ++ lit " Events";
    details =
        (shown (or_zero G m.data_loss) ++ lit " Data Loss")
        ∷ (text_or m.uptime (lit "99.97%") ++ lit " uptime")
        ∷ [];
  }

  unfoldable pub efficiency_card : MigrationRecord Num → Card
  unfolding or_zero
  efficiency_card m = record {
    value = b'$' ∷ shown (or_zero G m.downtime_cost);
    details =
        (shown (or_zero G m.downtime_seconds) ++ lit "s downtime")
        ∷ (shown (or_zero G m.engineering_saved) ++ lit " hrs saved")
        ∷ [];
  }

  -- the badge, the two tables and the method of the parity panel, and its mutations
  unfoldable pub parity_badge : Bool → Text
  parity_badge passed =
      if passed then lit "✅ VERIFIED" else 0x26a0 ∷ 0xfe0f ∷ lit " ISSUES DETECTED"

  unfoldable pub source_dest : MigrationRecord Num → Text × Text
  unfolding plan_table rows_text
  source_dest m =
      let table = text_or (plan_table m) (lit "—") in
      (
        lit "Source: " ++ (table ++ (lit " (" ++ (rows_text G m.source_rows ++ lit " rows)"))),
        lit "Destination: "
            ++ (table ++ (lit "_v2 (" ++ (rows_text G m.dest_rows ++ lit " rows)"))),
      )

  unfoldable pub method_text : MigrationRecord Num → Text
  method_text m =
      lit "VERIFICATION METHOD: " ++ text_or m.verification_method (lit "CRC32 Checksum")

  unfoldable pub mutation_texts : MigrationRecord Num → List (Text × Text)
  unfolding mutations
  mutation_texts m =
      (lit "DELETEs processed:", locale (mutations G m).deletes ++ lit " rows")
      ∷ (lit "UPDATEs processed:", locale (mutations G m).updates ++ lit " rows")
      ∷ (lit "ALTERs handled:", shown (mutations G m).alters ++ lit " operations")
      ∷ []

-- the icon of an event of the rollback
unfoldable pub rollback_icon : RollbackKind → Text
rollback_icon breach = 0xd83d ∷ 0xdea8 ∷ []
rollback_icon trip = 0x26a1 ∷ []
rollback_icon init = 0xd83d ∷ 0xdd04 ∷ []
rollback_icon drain = 0xd83d ∷ 0xdd0c ∷ []
rollback_icon drop_kind = 0xd83d ∷ 0xddd1 ∷ 0xfe0f ∷ []
rollback_icon complete = 0x2705 ∷ []
rollback_icon verify = 0xd83d ∷ 0xdcca ∷ []

module _ {Num : Type 0} (K : Counts Num) where
  -- the list of the throttle events, under the cards
  unfoldable pub throttle_detail :
      MigrationRecord Num → Option (Text × List (Text × Text × Text) × Text)
  unfolding get_outcome get_throttle_events events_list
  throttle_detail m = elim (get_outcome K m) [
    | throttled ↦ events_list (get_throttle_events K m)
    | _ ↦ none
  ]

  -- the timeline of a rollback: icon, time and message of each event
  unfoldable pub rollback_timeline : MigrationRecord Num → Option (List (Text × Text × Text))
  unfolding get_outcome rollback_icon
  rollback_timeline m = elim (get_outcome K m) [
    | rolled_back ↦
        some
          (map (λ e. (rollback_icon e.kind, e.timestamp, e.message)) (or_else m.rollback_events []))
    | _ ↦ none
  ]

module _ {Num : Type 0} (G : CostFigures Num) where
  open G use {shown_num, fixed2, locale_num}

  -- the cards of the cost panel: value, detail and badge
  unfoldable pub cost_cards : MigrationRecord Num → List (Text × Text × Text)
  unfolding cost_metrics
  cost_cards m =
      let metrics = cost_metrics G m in
      (
        b'$' ∷ fixed2 metrics.downtime_cost,
        fixed2 metrics.downtime_seconds ++ lit "s downtime",
        lit "Zero Downtime",
      )
      ∷ (shown_num metrics.engineering_hours ++ lit " hours", lit "saved", lit "Automated")
      ∷ (locale_num metrics.throughput ++ lit " rows/sec", lit "(avg)", lit "Safe Speed")
      ∷ []

  -- the comparison: metric, manual process and engine
  unfoldable pub comparison_rows : MigrationRecord Num → List (Text × Text × Text)
  unfolding engine_process
  comparison_rows m =
      let mse = engine_process G m in
      (lit "Duration", manual.duration, mse.duration)
      ∷ (lit "Engineers Required", manual.engineers, mse.engineers)
      ∷ (lit "Risk Level", manual.risk, mse.risk)
      ∷ (lit "Downtime", manual.downtime, mse.downtime)
      ∷ (lit "Data Loss Risk", manual.data_loss_risk, mse.data_loss_risk)
      ∷ (lit "Rollback Time", manual.rollback_time, mse.rollback_time)
      ∷ (lit "Cost (@ $100/hr)", manual.cost, mse.cost)
      ∷ []
