-- ===== src/Dashboard/RequestTests.antt =====
-- The requests and the messages of frontend/src/pages/Dashboard.tsx on small inputs, and their properties there.
use migration_safety_engine.Toast.Provider.{initial}
use migration_safety_engine.Api.Calls.{reset_demo, submit_plan}
use migration_safety_engine.Api.Session.{page_load}
use migration_safety_engine.Api.Client.{get_token, require_ok, require_ok_text, headers}
use migration_safety_engine.Dashboard.Errors.{error-handle_all}
use migration_safety_engine.Api.Uri.{digits_from, decimal}
use migration_safety_engine.Dashboard.Invariant.{click_row, handle_all, answer}
use migration_safety_engine.Dashboard.Tests.{ascii_lower, last_page, rows}
use migration_safety_engine.Types.Records.{MigrationPlan}
use migration_safety_engine.Dashboard.Deletion.{Deleted, IsIdle, handle_bulk_delete-Deleted}
use migration_safety_engine.Dashboard.Events.{Dashboard, mounted}
use migration_safety_engine.Dashboard.Requests.{
  Console, deleted_text, demo_failed, handle_bulk_delete, handle_run_demo,
}
use migration_safety_engine.Api.Effects.{Answer, is_ok, responded, rejected, ok, fetch}
use migration_safety_engine.Prelude.{[], length, lit, none, some, ℕ, ◌∷◌}
use mathlib.Core.Path.{◌≡◌, refl}

abbrev console : Console ℕ
console = record {
  dashboard = last_page;
  world = page_load (some (lit "t"));
  provider = initial;
  visits = [];
}

abbrev removed_answer : Answer (Unit {0})
removed_answer = responded (record { status = 204; text = ok []; json = ok tt })

handle_bulk_delete-Deleted_example :
    Deleted ascii_lower removed_answer
      (rejected (lit "offline"))
      console
      (handle_bulk_delete ascii_lower removed_answer (rejected (lit "offline")) console)
    × IsIdle ascii_lower
        (handle_bulk_delete ascii_lower removed_answer (rejected (lit "offline")) console).dashboard
handle_bulk_delete-Deleted_example =
    handle_bulk_delete-Deleted ascii_lower removed_answer (rejected (lit "offline")) console

deleted_text_test :
    (deleted_text 1 ≡ lit "Deleted 1 migration") × (deleted_text 12 ≡ lit "Deleted 12 migrations")
unfolding deleted_text decimal digits_from
deleted_text_test = (refl, refl)

-- The list could not be fetched once; then it is, again and again.
abbrev failed_once : Dashboard ℕ
failed_once = record (mounted ascii_lower) { error = lit "list migrations: 502" }

error-handle_all_example :
    (handle_all ascii_lower
      (answer (ok rows) ∷ click_row (lit "m1") ∷ answer (ok rows) ∷ [])
      failed_once).error
    ≡ lit "list migrations: 502"
error-handle_all_example =
    error-handle_all ascii_lower (answer (ok rows) ∷ click_row (lit "m1") ∷ answer (ok rows) ∷ [])
      failed_once (tt, (tt, (tt, tt)))

abbrev no_plan : MigrationPlan ℕ
no_plan = record {
  id = lit "p";
  version = 1;
  table = lit "a";
  strategy = [];
  expand = [];
  backfill = record { column = []; batch_size = 0; throttle_ms = 0; source_expr = [] };
  verify = record { mode = []; parity_threshold = 1; sample_rate = 1 };
  canary = record { steps = []; bake_seconds = 0 };
  slo = record { max_p99_latency_ms = 0; max_error_rate_pct = 0; min_parity = 0 };
  contract = [];
  rollback = [];
  on_failure = [];
  add_columns = none;
  drop_columns = none;
}

-- The demo: the server is emptied, and then has the plan.
demo_test :
    (length
        (handle_run_demo ascii_lower no_plan removed_answer
          (rejected (lit "offline"))
          console).world.sent
      ≡ 2)
    × ((handle_run_demo ascii_lower no_plan removed_answer
          (rejected (lit "offline"))
          console).visits
        ≡ [])
unfolding handle_run_demo demo_failed reset_demo submit_plan headers get_token fetch require_ok
    require_ok_text is_ok
demo_test = (refl, refl)
