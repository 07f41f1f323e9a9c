-- ===== src/Prometheus/Query.antt =====
-- lib/prometheus.ts: the queries on a `MetricMap`, and `extractMigrationMetrics`. `Object.entries` of
-- the transition counts is taken in the order of insertion: state names that are array indices, or
-- properties of `Object.prototype`, are outside the model.
use migration_safety_engine.Prelude.{
  ◌&&◌, List, [], ◌∷◌, map, foldl, reverse, Text, lit, or_else, if◌then◌else◌, filter,
}
use migration_safety_engine.Dict.{Dict, get, put}
use migration_safety_engine.Prometheus.Floats.{Floats, or_zero}
use migration_safety_engine.Prometheus.Labels.{has_value, matches}
use migration_safety_engine.Prometheus.Parse.{MetricSample, MetricMap, samples_of}

abbrev pub plan_filter : Text → Dict Text
plan_filter plan_id = (lit "plan_id", plan_id) ∷ []

abbrev pub both_filter : Text → Text → Dict Text
both_filter migration_id plan_id =
    (lit "migration_id", migration_id) ∷ (lit "plan_id", plan_id) ∷ []

module _ (F : Floats) where
  open F use {Num, zero_num, one, hundred, add, mul, div, gt, eq}

  pub record Transition : Type 0 where
    pub state : Text
    pub count : Num

  pub record MigrationMetrics : Type 0 where
    pub backfill_total : Num
    pub backfill_done : Num
    pub backfill_pct : Num
    pub parity : Num
    pub canary_pct : Num
    pub rollbacks : Num
    pub cutover_parity : Num
    pub current_state : Text
    pub transitions : List Transition

  -- the loop of `getLatest`, over the samples from the last to the first
  unfoldable pub first_match : Dict Text → List (MetricSample F) → Num
  first_match filter [] = zero_num
  first_match filter (s ∷ samples) =
      if matches filter s.labels then s.value else first_match filter samples

  unfoldable pub get_latest : MetricMap F → Text → Dict Text → Num
  unfolding samples_of first_match matches
  get_latest metrics name filter = first_match filter (reverse (samples_of F name metrics))

  -- the loop of `getSum`
  unfoldable pub sum_from : Dict Text → Num → List (MetricSample F) → Num
  sum_from filter total [] = total
  sum_from filter total (s ∷ samples) =
      sum_from filter (if matches filter s.labels then add total s.value else total) samples

  unfoldable pub get_sum : MetricMap F → Text → Dict Text → Num
  unfolding samples_of sum_from matches
  get_sum metrics name filter = sum_from filter zero_num (samples_of F name metrics)

  -- the loop of `getStates`
  unfoldable pub state_from : Text → List (MetricSample F) → Text
  state_from migration_id [] = []
  state_from migration_id (s ∷ samples) =
      if has_value (get (lit "migration_id") s.labels) migration_id && eq s.value one
      then or_else (get (lit "state") s.labels) []
      else state_from migration_id samples

  unfoldable pub get_states : MetricMap F → Text → Text
  unfolding samples_of state_from
  get_states metrics migration_id =
      state_from migration_id (samples_of F (lit "migrate_state_info") metrics)

  -- one round of the loop of `getTransitions`
  unfoldable pub count_transition : Text → Dict Num → MetricSample F → Dict Num
  count_transition plan_id result s =
      if has_value (get (lit "plan_id") s.labels) plan_id
      then (let state = or_else (get (lit "to_state") s.labels) [] in
          put state (add (or_zero F (or_else (get state result) zero_num)) s.value) result)
      else result

  abbrev pub to_transition : Text × Num → Transition
  to_transition (state, count) = record { state = state; count = count }

  unfoldable pub get_transitions : MetricMap F → Text → List Transition
  unfolding samples_of count_transition
  get_transitions metrics plan_id = map to_transition (
      foldl (count_transition plan_id) []
        (samples_of F (lit "migrate_state_transitions_total") metrics))

  unfoldable pub extract_migration_metrics : MetricMap F → Text → Text → MigrationMetrics
  unfolding get_latest get_sum get_states get_transitions
  extract_migration_metrics metrics migration_id plan_id =
      let filter = both_filter migration_id plan_id in
      let backfill_total = get_latest metrics (lit "migrate_backfill_rows_total") filter in
      let backfill_done = get_latest metrics (lit "migrate_backfill_rows_done") filter in
      record {
        backfill_total = backfill_total;
        backfill_done = backfill_done;
        backfill_pct =
            if gt backfill_total zero_num
            then mul (div backfill_done backfill_total) hundred
            else zero_num;
        parity = get_latest metrics (lit "migrate_verify_parity") filter;
        canary_pct = get_latest metrics (lit "migrate_canary_step_pct") filter;
        rollbacks = get_sum metrics (lit "migrate_rollbacks_total") (plan_filter plan_id);
        cutover_parity = get_latest metrics (lit "migrate_cutover_parity") filter;
        current_state = get_states metrics migration_id;
        transitions = get_transitions metrics plan_id;
      }
