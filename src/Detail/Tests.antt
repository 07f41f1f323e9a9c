-- ===== src/Detail/Tests.antt =====
-- The page of one migration (frontend/src/pages/MigrationDetail.tsx) on small inputs, and its properties
-- there.
use migration_safety_engine.Detail.Flow.{flow_count, throttle_slot, zero_slot}
use migration_safety_engine.Api.Uri.{digits_from, decimal}
use migration_safety_engine.Detail.Before.{count_text, listed-before_card, listed}
use migration_safety_engine.Detail.Tables.{
  before_card, before_rows, cells_from, drops_shown, last_of, schema_cells, shorten,
}
use migration_safety_engine.Toast.Provider.{initial}
use migration_safety_engine.Types.States.{rolled_back, canary, done, state_text}
use migration_safety_engine.Api.Session.{page_load}
use migration_safety_engine.Detail.View.{
  flow_index, is_live, opened_view, record_fetched, schema_wanted, watch, closed, progress, View,
}
use migration_safety_engine.Poll.Timers.{
  clear_interval, poll_again, poll_cleanup, poll_effect, set_interval,
}
use migration_safety_engine.Types.Records.{MigrationRecord, MigrationPlan}
use migration_safety_engine.Api.Effects.{Answer, ok, responded, rejected, thrown}
use migration_safety_engine.Prelude.{
  List, [], false, if◌then◌else◌, length, lit, none, refl, some, text_eq, true, ℕ, ◌∷◌, ◌≡◌, ltb,
  not, ◌+◌, ◌==◌,
}
use migration_safety_engine.Detail.Invariant.{
  Event, handle, handle_all, live-handle_all, record_answer,
}
use migration_safety_engine.Detail.Abort.{
  Screen, Aborted, IsReady, handle_abort, handle_abort-Aborted,
}

abbrev shown_row : MigrationRecord ℕ
shown_row = record {
  migration_id = lit "m1";
  plan_id = lit "plan";
  state = canary;
  terminal = false;
  updated_at = [];
  table = none;
  plan = none;
  row_count = none;
  duration = none;
  data_parity = none;
  rows_verified = none;
  drift_detected = none;
  throttle_events = none;
  data_loss = none;
  uptime = none;
  downtime_cost = none;
  downtime_seconds = none;
  engineering_saved = none;
  cost_saved = none;
  throughput = none;
  source_rows = none;
  dest_rows = none;
  source_checksum = none;
  dest_checksum = none;
  null_mismatches = none;
  type_conversion_valid = none;
  fk_integrity_valid = none;
  verification_method = none;
  deletes_processed = none;
  updates_processed = none;
  alters_handled = none;
  start_time = none;
  end_time = none;
  throttle_events_list = none;
  rollback_events = none;
}

abbrev running : MigrationRecord ℕ
running = record shown_row { terminal = false; state = canary }

abbrev stopped : MigrationRecord ℕ
stopped = record shown_row { terminal = true; state = done }

abbrev answers : List (Event ℕ)
answers =
    record_answer (ok running)
    ∷ record_answer (thrown (lit "get migration: 500"))
    ∷ record_answer (ok running)
    ∷ record_answer (ok stopped)
    ∷ []

opened_handlers : Unit {0}
unfolding handle_all handle record_fetched watch poll_again poll_effect poll_cleanup set_interval
    clear_interval is_live progress flow_index text_eq schema_wanted closed
opened_handlers = tt

answers_test :
    ((handle_all answers opened_view).timers.live ≡ [])
    × ((handle_all
          (record_answer (ok running) ∷ record_answer (ok running) ∷ [])
          opened_view).timers.live
        ≡ 1 ∷ [])
    × (progress canary ≡ 63)
    × (progress rolled_back ≡ 0)
    × (schema_wanted none (some (lit "t")) ≡ some (lit "t"))
unfolding opened_handlers
answers_test = (refl, refl, refl, refl, refl)

live-handle_all_example :
    (length (handle_all answers opened_view).timers.live
      ≡ (if is_live (handle_all answers opened_view).migration then 1 else 0))
    × ((closed (handle_all answers opened_view)).timers.live ≡ [])
live-handle_all_example = live-handle_all answers

abbrev screen : Screen ℕ
screen = record {
  view = record opened_view { migration = some running };
  world = page_load (some (lit "t"));
  provider = initial;
}

abbrev accepted : Answer (Unit {0})
accepted = responded (record { status = 202; text = ok []; json = ok tt })

handle_abort-Aborted_example :
    Aborted
      (lit "m1")
      running
      accepted
      screen
      (handle_abort (lit "m1") accepted (rejected (lit "offline")) screen).0
    × IsReady (handle_abort (lit "m1") accepted (rejected (lit "offline")) screen).0.view
handle_abort-Aborted_example =
    handle_abort-Aborted (lit "m1") running accepted (rejected (lit "offline")) screen refl

abbrev drop_plan : MigrationPlan ℕ
drop_plan = record {
  id = lit "p";
  version = 1;
  table = lit "a";
  strategy = [];
  expand = [];
  backfill = record { column = []; batch_size = 0; throttle_ms = 0; source_expr = [] };
  verify = record { mode = []; parity_threshold = 1; sample_rate = 1 };
  canary = record { steps = []; bake_seconds = 0 };
  slo = record { max_p99_latency_ms = 0; max_error_rate_pct = 0; min_parity = 0 };
  contract = [];
  rollback = [];
  on_failure = [];
  add_columns = none;
  drop_columns = some (lit "x" ∷ []);
}

abbrev dropping : MigrationRecord ℕ
dropping = record running { table = some (lit "a"); plan = some drop_plan }

-- The schema still has the column that the migration will drop.
abbrev before_drop : View ℕ
before_drop = record opened_view {
  schema = record { name = lit "x"; type = lit "text"; nullable = true; default = none } ∷ [];
}

x_dropped : drops_shown dropping ≡ some (lit "x" ∷ [])
unfolding drops_shown
x_dropped = refl

listed-before_card_example :
    listed (lit "x") (before_card before_drop dropping)
    ≡ count_text (lit "x") (lit "x" ∷ []) + count_text (lit "x") (lit "x" ∷ [])
listed-before_card_example =
    listed-before_card (lit "x") before_drop dropping (lit "x" ∷ []) x_dropped

twice_test : listed (lit "x") (before_card before_drop dropping) ≡ 2
unfolding before_card drops_shown before_rows cells_from schema_cells text_eq
twice_test = refl

slot_test :
    (throttle_slot (λ n. not (n == 0)) (ltb 0) (record running { throttle_events = some 0 })
      ≡ zero_slot)
    × (flow_count rolled_back ≡ lit "0 of 8")
    × (shorten 3 (lit "abcd") ≡ lit "abc...")
    × (last_of {A = ℕ} 2 (1 ∷ 2 ∷ 3 ∷ []) ≡ 2 ∷ 3 ∷ [])
unfolding throttle_slot flow_count flow_index state_text text_eq shorten decimal digits_from
slot_test = (refl, refl, refl, refl)
