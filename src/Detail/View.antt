-- ===== src/Detail/View.antt =====
-- The state of the component `MigrationDetail` (frontend/src/pages/MigrationDetail.tsx) and what it does
-- with the answers of the server. The route gives the page an id. A failure to load the schema or the
-- safety data goes to the console only.
use mathlib.Core.Option
use migration_safety_engine.Poll.Timers.{Timers, no_timers, poll_again, poll_cleanup}
use migration_safety_engine.Types.States.{State, state_flow, state_text}
use migration_safety_engine.Api.Effects.{Result, ok, thrown}
use migration_safety_engine.Types.Records.{MigrationRecord, SchemaColumn, SchemaResponse}
use migration_safety_engine.Types.Reports.{
  BackfillProgress, BackfillProgressResponse, CanaryObservation, CanaryObservationsResponse,
  DdlExecutionLog, SafetyMetrics,
}
use migration_safety_engine.Prelude.{
  Bool, List, Option, Text, [], false, if◌then◌else◌, length, none, not, some, suc, text_eq, true,
  ℕ, ◌&&◌, ◌*◌, ◌+◌, ◌/◌, ◌∷◌,
}

pub record View (Num : Type 0) : Type 0 where
  pub migration : Option (MigrationRecord Num)
  pub loading : Bool
  pub error : Text
  pub aborting : Bool
  pub show_abort_confirm : Bool
  pub schema : List SchemaColumn
  pub schema_loading : Bool
  pub ddl_logs : List (DdlExecutionLog Num)
  pub backfill_progress : List (BackfillProgress Num)
  pub canary_obs : List (CanaryObservation Num)
  pub safety_loading : Bool
  pub timers : Timers

-- Whether two renderings have the same dependency.
abbrev pub same_flag : Option Bool → Option Bool → Bool
same_flag none none = true
same_flag (some true) (some true) = true
same_flag (some false) (some false) = true
same_flag _ _ = false

-- the table that the effect on `[record?.table, fetchSchema]` asks for, if it runs
unfoldable pub schema_wanted : Option Text → Option Text → Option Text
schema_wanted before none = none
schema_wanted before (some []) = none
schema_wanted none (some (c ∷ s)) = some (c ∷ s)
schema_wanted (some t) (some (c ∷ s)) = if text_eq t (c ∷ s) then none else some (c ∷ s)

module _ {Num : Type 0} where
  -- `record && !record.terminal`
  unfoldable pub is_live : Option (MigrationRecord Num) → Bool
  is_live none = false
  is_live (some m) = not m.terminal

  -- `record?.terminal`
  abbrev pub terminal_of : Option (MigrationRecord Num) → Option Bool
  terminal_of none = none
  terminal_of (some m) = some m.terminal

  -- the first rendering, after the effects that start with it
  abbrev pub opened_view : View Num
  opened_view = record {
    migration = none;
    loading = true;
    error = [];
    aborting = false;
    show_abort_confirm = false;
    schema = [];
    schema_loading = false;
    ddl_logs = [];
    backfill_progress = [];
    canary_obs = [];
    safety_loading = true;
    timers = no_timers;
  }

  -- the effect on `[record?.terminal, fetchRecord]`, after a rendering with `before`
  unfoldable pub watch : Option (MigrationRecord Num) → View Num → View Num
  unfolding poll_again is_live
  watch before v =
      if same_flag (terminal_of before) (terminal_of v.migration)
      then v
      else record v { timers = poll_again (is_live v.migration) v.timers }

  -- `fetchRecord`, from the answer on
  unfoldable pub record_fetched : Result (MigrationRecord Num) → View Num → View Num
  unfolding watch
  record_fetched (ok data_) v =
      watch v.migration (record v { migration = some data_; error = []; loading = false })
  record_fetched (thrown message) v = record v { error = message; loading = false }

  -- `fetchSchema`
  unfoldable pub schema_asked : View Num → View Num
  schema_asked v = record v { schema_loading = true }

  unfoldable pub schema_fetched : Result SchemaResponse → View Num → View Num
  schema_fetched (ok res) v = record v { schema = res.columns; schema_loading = false }
  schema_fetched (thrown message) v = record v { schema_loading = false }

  -- `fetchSafetyData`
  unfoldable pub safety_asked : View Num → View Num
  safety_asked v = record v { safety_loading = true }

  -- from what `Promise.all` comes to
  unfoldable pub safety_fetched :
      Result (SafetyMetrics Num)
      → Result (BackfillProgressResponse Num)
      → Result (CanaryObservationsResponse Num)
      → View Num
      → View Num
  safety_fetched (ok safety) (ok backfill) (ok canary) v = record v {
    ddl_logs = safety.ddl_logs;
    backfill_progress = backfill.progress;
    canary_obs = canary.observations;
    safety_loading = false;
  }
  safety_fetched _ _ _ v = record v { safety_loading = false }

  -- the button under the details, which is there while the migration runs, and the dialog
  unfoldable pub ask_abort : View Num → View Num
  unfolding is_live
  ask_abort v =
      if is_live v.migration && not v.aborting then record v { show_abort_confirm = true } else v

  unfoldable pub cancel_abort : View Num → View Num
  cancel_abort v = record v { show_abort_confirm = false }

  -- `handleAbort`, up to the call and from its result on
  unfoldable pub abort_started : View Num → View Num
  abort_started v = record v { aborting = true; show_abort_confirm = false }

  unfoldable pub abort_finished : Result (Unit {0}) → View Num → View Num
  abort_finished (ok done_value) v = record v { aborting = false }
  abort_finished (thrown message) v = record v { error = message; aborting = false }

  -- the component is taken off the page
  unfoldable pub closed : View Num → View Num
  unfolding poll_cleanup
  closed v = record v { timers = poll_cleanup v.timers }

-- `STATE_FLOW.indexOf(state)`
unfoldable pub flow_index : State → List State → Option ℕ
unfolding state_text
flow_index s [] = none
flow_index s (u ∷ us) =
    let rest = flow_index s us in
    if text_eq (state_text u) (state_text s) then some 0 else Option.map suc rest

-- `progress`: `Math.round(((currentIdx + 1) / STATE_FLOW.length) * 100)`, half of one upwards
unfoldable pub progress : State → ℕ
unfolding flow_index
progress s = elim (flow_index s state_flow) [
  | none ↦ 0
  | some current_idx ↦ ((current_idx + 1) * 200 + length state_flow) / (2 * length state_flow)
]
