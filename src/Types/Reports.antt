-- ===== src/Types/Reports.antt =====
-- frontend/src/types/index.ts: drift reports and the observations of a running migration.
use migration_safety_engine.Prelude.{Bool, List, Option, Text}

module _ (Num : Type 0) where
  pub record DriftReport : Type 0 where
    pub table : Text
    pub column : Text
    pub total : Num
    pub nulls : Num
    pub drifted : Num
    pub parity : Num

  pub record DdlExecutionLog : Type 0 where
    pub id : Num
    pub migration_id : Text
    pub statement : Text
    pub started_at : Text
    pub completed_at : Option Text
    pub duration_ms : Option Num
    pub success : Bool
    pub error_message : Option Text
    pub lock_wait_ms : Option Num
    pub created_at : Text

  pub record BackfillProgress : Type 0 where
    pub id : Num
    pub migration_id : Text
    pub batch_number : Num
    pub rows_affected : Num
    pub throttle_ms : Option Num
    pub db_cpu_pct : Option Num
    pub db_rep_lag_ms : Option Num
    pub db_conns_pct : Option Num
    pub created_at : Text

  pub record CanaryObservation : Type 0 where
    pub id : Num
    pub migration_id : Text
    pub step : Num
    pub traffic_pct : Num
    pub p99_ms : Option Num
    pub err_pct : Option Num
    pub slo_breached : Bool
    pub observed_at : Text

  pub record SafetyMetrics : Type 0 where
    pub migration_id : Text
    pub ddl_logs : List DdlExecutionLog

  pub record BackfillProgressResponse : Type 0 where
    pub migration_id : Text
    pub progress : List BackfillProgress

  pub record CanaryObservationsResponse : Type 0 where
    pub migration_id : Text
    pub observations : List CanaryObservation
