-- ===== src/Types/Records.antt =====
-- frontend/src/types/index.ts: plans, migration records and the events that they hold.
use migration_safety_engine.Types.States.{State}
use migration_safety_engine.Prelude.{Bool, List, Option, Text}

pub data RollbackKind : Type 0 where
  breach trip init drain drop_kind complete verify : RollbackKind

pub record ThrottleEvent : Type 0 where
  pub timestamp : Text
  pub reason : Text
  pub duration : Text
  pub metric : Text
  pub threshold : Text
  pub current : Text

pub record RollbackEvent : Type 0 where
  pub timestamp : Text
  pub kind : RollbackKind
  pub message : Text

pub record ColumnSpec : Type 0 where
  pub name : Text
  pub type : Text
  pub expression : Option Text
  pub nullable : Option Bool
  pub indexed : Option Bool

pub record SchemaColumn : Type 0 where
  pub name : Text
  pub type : Text
  pub nullable : Bool
  pub default : Option Text

pub record SchemaResponse : Type 0 where
  pub table : Text
  pub columns : List SchemaColumn

pub record PlanSubmission : Type 0 where
  pub migration_id : Text

pub record MigrationEvent : Type 0 where
  pub from_state : State
  pub to_state : State
  pub detail : Text
  pub created_at : Text

module _ (Num : Type 0) where
  pub record Backfill : Type 0 where
    pub column : Text
    pub batch_size : Num
    pub throttle_ms : Num
    pub source_expr : Text

  pub record Verify : Type 0 where
    pub mode : Text
    pub parity_threshold : Num
    pub sample_rate : Num

  pub record Canary : Type 0 where
    pub steps : List Num
    pub bake_seconds : Num

  pub record Slo : Type 0 where
    pub max_p99_latency_ms : Num
    pub max_error_rate_pct : Num
    pub min_parity : Num

  pub record MigrationPlan : Type 0 where
    pub id : Text
    pub version : Num
    pub table : Text
    pub strategy : Text
    pub expand : List Text
    pub backfill : Backfill
    pub verify : Verify
    pub canary : Canary
    pub slo : Slo
    pub contract : List Text
    pub rollback : List Text
    pub on_failure : Text
    pub add_columns : Option (List ColumnSpec)
    pub drop_columns : Option (List Text)

  pub record MigrationRecord : Type 0 where
    pub migration_id : Text
    pub plan_id : Text
    pub state : State
    pub terminal : Bool
    pub updated_at : Text
    pub table : Option Text
    pub plan : Option MigrationPlan
    pub row_count : Option Num
    pub duration : Option Text
    pub data_parity : Option Num
    pub rows_verified : Option Num
    pub drift_detected : Option Num
    pub throttle_events : Option Num
    pub data_loss : Option Num
    pub uptime : Option Text
    pub downtime_cost : Option Num
    pub downtime_seconds : Option Num
    pub engineering_saved : Option Num
    pub cost_saved : Option Num
    pub throughput : Option Num
    pub source_rows : Option Num
    pub dest_rows : Option Num
    pub source_checksum : Option Text
    pub dest_checksum : Option Text
    pub null_mismatches : Option Num
    pub type_conversion_valid : Option Bool
    pub fk_integrity_valid : Option Bool
    pub verification_method : Option Text
    pub deletes_processed : Option Num
    pub updates_processed : Option Num
    pub alters_handled : Option Num
    pub start_time : Option Text
    pub end_time : Option Text
    pub throttle_events_list : Option (List ThrottleEvent)
    pub rollback_events : Option (List RollbackEvent)
