-- ===== src/Detail/Safety.antt =====
-- The section `Production Safety` of frontend/src/pages/MigrationDetail.tsx, and the effect that asks for its
-- data. A value that is `null` or missing is `none`.
use migration_safety_engine.Api.Uri.{decimal}
use migration_safety_engine.Detail.View.{View}
use migration_safety_engine.Detail.Tables.{Texts, last_of, shorten}
use migration_safety_engine.Types.Reports.{BackfillProgress, CanaryObservation, DdlExecutionLog}
use migration_safety_engine.Prelude.{
  Bool, List, Option, Text, [], if◌then◌else◌, is_empty, length, lit, map, none, not, or_else, some,
  ℕ, ◌&&◌, ◌++◌, ◌==◌, ◌∷◌, false, true, ◌+◌,
}

-- `x !== null ? text : '—'`
abbrev text_or_dash : {A : Type 0} → (A → Text) → Option A → Text
text_or_dash show none = lit "—"
text_or_dash show (some a) = show a

-- background, border, color and text of a success or a failure
unfoldable pub outcome_style : Bool → Text → Text → Text × Text × Text × Text
outcome_style good passed failed =
    if good
    then (
      lit "rgba(34, 197, 94, 0.05)",
      lit "1px solid rgba(34, 197, 94, 0.2)",
      lit "var(--success)",
      passed,
    )
    else (
      lit "rgba(239, 68, 68, 0.05)",
      lit "1px solid rgba(239, 68, 68, 0.2)",
      lit "var(--danger)",
      failed,
    )

pub record DdlItem : Type 0 where
  pub style : Text × Text × Text × Text
  pub duration : Text
  pub statement : Text
  pub message : Option Text

pub record CanaryItem : Type 0 where
  pub style : Text × Text × Text × Text
  pub traffic : Text
  pub badge_background : Text
  pub p99 : Text
  pub errors : Text

-- The section: one text, or three lists with their headings.
pub data SafetySection : Type 0 where
  no_data : SafetySection
  lists :
      Option (Text × List DdlItem)
      → Option (Text × List (List Text))
      → Option (List CanaryItem)
      → SafetySection

module _ {Num : Type 0} (T : Texts Num) where
  open T use {text_of, fixed}

  unfoldable pub ddl_item : DdlExecutionLog Num → DdlItem
  unfolding outcome_style shorten
  ddl_item log = record {
    style = outcome_style log.success (lit "SUCCESS") (lit "FAILED");
    duration = text_or_dash (λ n. text_of n ++ lit "ms") log.duration_ms;
    statement = shorten 120 log.statement;
    message = if is_empty (or_else log.error_message []) then none else log.error_message;
  }

  -- a missing `throttle_ms` is an empty element
  unfoldable pub backfill_texts : BackfillProgress Num → List Text
  backfill_texts bp =
      (lit "#" ++ text_of bp.batch_number)
      ∷ (lit "+" ++ (text_of bp.rows_affected ++ lit " rows"))
      ∷ (elim bp.throttle_ms [ none ↦ [] | some n ↦ text_of n ] ++ lit "ms")
      ∷ text_or_dash (λ n. fixed 1 n ++ lit "% CPU") bp.db_cpu_pct
      ∷ text_or_dash (λ n. fixed 0 n ++ lit "ms lag") bp.db_rep_lag_ms
      ∷ []

  unfoldable pub canary_item : CanaryObservation Num → CanaryItem
  unfolding outcome_style
  canary_item obs = record {
    style = outcome_style (not obs.slo_breached) (lit "HEALTHY") (lit "SLO BREACH");
    traffic = text_of obs.traffic_pct ++ lit "% Traffic";
    badge_background =
        if obs.slo_breached then lit "rgba(239, 68, 68, 0.1)" else lit "rgba(34, 197, 94, 0.1)";
    p99 = lit "p99: " ++ text_or_dash (λ n. fixed 1 n ++ lit "ms") obs.p99_ms;
    errors = lit "errors: " ++ text_or_dash (λ n. fixed 2 n ++ lit "%") obs.err_pct;
  }

  abbrev if_any : {A B : Type 0} → List A → B → Option B
  if_any [] b = none
  if_any (x ∷ xs) b = some b

  unfoldable pub safety_section : View Num → SafetySection
  unfolding ddl_item backfill_texts canary_item
  safety_section v =
      if length v.ddl_logs == 0 && length v.backfill_progress == 0 && length v.canary_obs == 0
      then no_data
      else lists
          (if_any v.ddl_logs (
            lit "DDL Executions (" ++ (decimal (length v.ddl_logs) ++ lit ")"),
            map ddl_item v.ddl_logs,
          ))
          (if_any v.backfill_progress (
            lit "Backfill Batches (" ++ (decimal (length v.backfill_progress) ++ lit ")"),
            map backfill_texts (last_of 5 v.backfill_progress),
          ))
          (if_any v.canary_obs (map canary_item v.canary_obs))

-- the effect on `[fetchSafetyData]`: how often the data has been asked for, and whether its interval runs
pub record SafetyPoll : Type 0 where
  pub asked : ℕ
  pub live : Bool

abbrev pub safety_opened : SafetyPoll
safety_opened = record { asked = 1; live = true }

unfoldable pub safety_tick : SafetyPoll → SafetyPoll
safety_tick s = if s.live then record s { asked = s.asked + 1 } else s

unfoldable pub safety_closed : SafetyPoll → SafetyPoll
safety_closed s = record s { live = false }
