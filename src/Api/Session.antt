-- ===== src/Api/Session.antt =====
-- A page's calls of the client of frontend/src/lib/api.ts, one after the other. No other page writes
-- to the local storage.
use migration_safety_engine.Api.Calls.{
  abort_migration, delete_migrations, drift_scan, fetch_schema, get_backfill_progress,
  get_canary_observations, get_migration, get_safety_metrics, list_migrations, reset_demo,
  submit_plan, health, login, logout,
}
use migration_safety_engine.Types.Records.{
  MigrationPlan, MigrationRecord, PlanSubmission, SchemaResponse,
}
use migration_safety_engine.Api.Client.{LoginData, is_truthy, get_token}
use migration_safety_engine.Types.Reports.{
  BackfillProgressResponse, CanaryObservationsResponse, DriftReport, SafetyMetrics,
}
use migration_safety_engine.Api.Effects.{Answer, Result, World, ok, thrown}
use migration_safety_engine.Prelude.{
  List, Option, Text, [], arith, if◌then◌else◌, none, some, true, ◌∷◌, ◌≡◌,
}

pub data Call (Num : Type 0) : Type 0 where
  health_call : Answer Text → Call Num
  login_call : (username password : Text) → Answer LoginData → Call Num
  logout_call : Call Num
  get_call : Text → Answer (MigrationRecord Num) → Call Num
  submit_call : MigrationPlan Num → Answer PlanSubmission → Call Num
  drift_call : MigrationPlan Num → Answer (DriftReport Num) → Call Num
  list_call : Answer (List (MigrationRecord Num)) → Call Num
  reset_call : Answer Unit → Call Num
  abort_call : Text → Answer Unit → Call Num
  delete_call : List Text → Answer Unit → Call Num
  schema_call : Text → Answer SchemaResponse → Call Num
  safety_call : Text → Answer (SafetyMetrics Num) → Call Num
  backfill_call : Text → Answer (BackfillProgressResponse Num) → Call Num
  canary_call : Text → Answer (CanaryObservationsResponse Num) → Call Num

module _ {Num : Type 0} where
  -- whether the call threw, and the world after it
  abbrev pub outcome : {A : Type 0} → Result A × World Num → Option Text × World Num
  outcome (ok a, w) = (none, w)
  outcome (thrown message, w) = (some message, w)

  unfoldable pub run : Call Num → World Num → Option Text × World Num
  run (health_call answer) w = outcome (health answer w)
  run (login_call username password answer) w = outcome (login username password answer w)
  run logout_call w = outcome (logout w)
  run (get_call id answer) w = outcome (get_migration id answer w)
  run (submit_call plan answer) w = outcome (submit_plan plan answer w)
  run (drift_call plan answer) w = outcome (drift_scan plan answer w)
  run (list_call answer) w = outcome (list_migrations answer w)
  run (reset_call answer) w = outcome (reset_demo answer w)
  run (abort_call id answer) w = outcome (abort_migration id answer w)
  run (delete_call ids answer) w = outcome (delete_migrations ids answer w)
  run (schema_call table answer) w = outcome (fetch_schema table answer w)
  run (safety_call id answer) w = outcome (get_safety_metrics id answer w)
  run (backfill_call id answer) w = outcome (get_backfill_progress id answer w)
  run (canary_call id answer) w = outcome (get_canary_observations id answer w)

  unfoldable pub run_all : List (Call Num) → World Num → World Num
  unfolding run
  run_all [] w = w
  run_all (c ∷ cs) w = run_all cs (run c w).1

  -- The token that the next call sees.
  abbrev pub visible : World Num → Option Text
  visible w = if is_truthy w.token then w.token else w.stored

  abbrev pub page_load : Option Text → World Num
  page_load stored = record { token = none; stored = stored; sent = [] }

  -- The token in memory, if there is one, is the stored one.
  abbrev pub IsCoherent : World Num → Type 0
  IsCoherent w = (is_truthy w.token ≡ true) → w.token ≡ w.stored

  run-IsCoherent : (c : Call Num) (w : World Num) → IsCoherent w → IsCoherent (run c w).1
  unfolding run health login logout get_migration submit_plan drift_scan list_migrations reset_demo
      abort_migration delete_migrations fetch_schema get_safety_metrics get_backfill_progress
      get_canary_observations
  run-IsCoherent (health_call answer) w h = ground arith
  run-IsCoherent (login_call username password answer) w h = ground arith
  run-IsCoherent _ w h = ground arith

  run_all-IsCoherent :
      (cs : List (Call Num)) (w : World Num) → IsCoherent w → IsCoherent (run_all cs w)
  unfolding run_all
  run_all-IsCoherent [] w h = h
  run_all-IsCoherent (c ∷ cs) w h = run_all-IsCoherent cs (run c w).1 (run-IsCoherent c w h)

  -- After any calls since the page was loaded, failing ones included, the token that the client
  -- answers with is the one in the storage.
  pub visible-run_all :
      (stored : Option Text) (cs : List (Call Num))
      → (get_token (run_all cs (page_load stored))).0 ≡ (run_all cs (page_load stored)).stored
  unfolding get_token
  visible-run_all stored cs =
      let h : IsCoherent (run_all cs (page_load stored)) =
        run_all-IsCoherent cs (page_load stored) (λ e. cc) in
      ground arith
