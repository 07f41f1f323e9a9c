-- ===== src/Api/Failures.antt =====
-- What a failed call of the client of frontend/src/lib/api.ts leaves behind.
use migration_safety_engine.Api.Calls.{
  abort_migration, delete_migrations, drift_scan, fetch_schema, get_backfill_progress,
  get_canary_observations, get_migration, get_safety_metrics, list_migrations, reset_demo,
  submit_plan, health, login, logout,
}
use migration_safety_engine.Api.Session.{
  Call, abort_call, backfill_call, canary_call, delete_call, drift_call, get_call, health_call,
  list_call, login_call, logout_call, reset_call, safety_call, schema_call, submit_call, run,
  visible,
}
use migration_safety_engine.Api.Effects.{Answer, World, is_ok, rejected, responded}
use migration_safety_engine.Prelude.{Bool, arith, false, none, not, true, ◌≡◌, ◌≢◌}

-- The network failed, or the status is not one of success.
unfoldable pub answer_failed : {A : Type 0} → Answer A → Bool
answer_failed (rejected message) = true
answer_failed (responded r) = not (is_ok r)

module _ {Num : Type 0} where
  unfoldable pub call_failed : Call Num → Bool
  unfolding answer_failed
  call_failed (health_call answer) = answer_failed answer
  call_failed (login_call username password answer) = answer_failed answer
  call_failed logout_call = false
  call_failed (get_call id answer) = answer_failed answer
  call_failed (submit_call plan answer) = answer_failed answer
  call_failed (drift_call plan answer) = answer_failed answer
  call_failed (list_call answer) = answer_failed answer
  call_failed (reset_call answer) = answer_failed answer
  call_failed (abort_call id answer) = answer_failed answer
  call_failed (delete_call ids answer) = answer_failed answer
  call_failed (schema_call table answer) = answer_failed answer
  call_failed (safety_call id answer) = answer_failed answer
  call_failed (backfill_call id answer) = answer_failed answer
  call_failed (canary_call id answer) = answer_failed answer

  -- A call whose answer has failed throws, and changes neither the token that the client sees nor the
  -- stored one; a failed login too.
  pub run_failed :
      (c : Call Num) (w : World Num)
      → call_failed c ≡ true
      → ((run c w).0 ≢ none) × (visible (run c w).1 ≡ visible w) × ((run c w).1.stored ≡ w.stored)
  unfolding run health login logout get_migration submit_plan drift_scan list_migrations reset_demo
      abort_migration delete_migrations fetch_schema get_safety_metrics get_backfill_progress
      get_canary_observations call_failed
  run_failed (health_call answer) w h = (ground arith, ground arith, ground arith)
  run_failed (login_call username password answer) w h = (ground arith, ground arith, ground arith)
  run_failed _ w h = (ground arith, ground arith, ground arith)
