-- ===== src/Panels/Tests.antt =====
-- The panels of a finished migration (frontend/src/components) on small inputs, and a property there.
use migration_safety_engine.Panels.Export.{cells_of_row, cells_of_row_lem}
use migration_safety_engine.Panels.Cost.{CostFigures, cost_metrics}
use migration_safety_engine.Api.Uri.{decimal, digits_from}
use migration_safety_engine.Types.States.{state_text, done}
use migration_safety_engine.Types.Records.{MigrationRecord, ThrottleEvent}
use migration_safety_engine.Panels.Parity.{
  Figures, Agrees, all_passed, all_passed-Agrees, verification_checks, results, or_zero,
}
use migration_safety_engine.Panels.Health.{Counts, get_outcome, total_throttle_time, throttled}
use migration_safety_engine.Prelude.{
  Text, [], false, get_elem?, lit, ltb, none, refl, some, text_eq, true, ℕ, ◌==◌, ◌∷◌, ◌≡◌,
  Lacks-of_index_of, index_of, ◌++◌, Lacks, ◌↔◌,
}

abbrev figures : Figures ℕ
figures = record {
  same = λ a b. a == b;
  zero_num = 0;
  is_truthy_num = λ n. ltb 0 n;
  locale = decimal;
  shown = decimal;
}

abbrev counts : Counts ℕ
counts = record { is_positive = λ n. ltb 0 n; is_zero = λ n. n == 0 }

abbrev bare : MigrationRecord ℕ
bare = record {
  migration_id = lit "m1";
  plan_id = lit "plan";
  state = done;
  terminal = true;
  updated_at = [];
  table = none;
  plan = none;
  row_count = none;
  duration = none;
  data_parity = none;
  rows_verified = none;
  drift_detected = none;
  throttle_events = none;
  data_loss = none;
  uptime = none;
  downtime_cost = none;
  downtime_seconds = none;
  engineering_saved = none;
  cost_saved = none;
  throughput = none;
  source_rows = none;
  dest_rows = none;
  source_checksum = none;
  dest_checksum = none;
  null_mismatches = none;
  type_conversion_valid = none;
  fk_integrity_valid = none;
  verification_method = none;
  deletes_processed = none;
  updates_processed = none;
  alters_handled = none;
  start_time = none;
  end_time = none;
  throttle_events_list = none;
  rollback_events = none;
}

abbrev event : Text → ThrottleEvent
event duration = record {
  timestamp = [];
  reason = [];
  duration = duration;
  metric = [];
  threshold = [];
  current = [];
}

total_test : total_throttle_time (event (lit "5s") ∷ event (lit "30s") ∷ []) ≡ lit "0s5s30s"
unfolding total_throttle_time
total_test = refl

outcome_test : get_outcome counts (record bare { throttle_events = some 2 }) ≡ throttled
unfolding get_outcome state_text text_eq
outcome_test = refl

mismatch_test :
    all_passed figures (record bare { source_rows = some 2; dest_rows = some 3 }) ≡ false
unfolding all_passed verification_checks
mismatch_test = refl

-- A migration with no result of a verification is shown as verified, next to the text of a failure.
unverified_test :
    (all_passed figures bare ≡ true)
    × (get_elem? (results figures bare) 3 ≡ some (lit "Invalid conversions detected"))
unfolding all_passed verification_checks or_zero
unverified_test = (refl, refl)

all_passed-Agrees_example :
    (all_passed figures (record bare { source_rows = some 2; dest_rows = some 2 }) ≡ true)
    ↔ Agrees figures (record bare { source_rows = some 2; dest_rows = some 2 })
all_passed-Agrees_example =
    all_passed-Agrees figures (record bare { source_rows = some 2; dest_rows = some 2 })

abbrev cost_figures : CostFigures ℕ
cost_figures = record {
  zero_num = 0;
  is_truthy_num = λ n. ltb 0 n;
  shown_num = decimal;
  fixed2 = λ n. decimal n ++ lit ".00";
  locale_num = decimal;
}

no_comma : Lacks b',' (cost_figures.fixed2 (cost_metrics cost_figures bare).downtime_cost)
unfolding decimal digits_from cost_metrics
no_comma = Lacks-of_index_of b',' (lit "0.00") (unfold index_of in refl)

cells_of_row_test :
    (cells_of_row cost_figures 3 bare ≡ lit "Risk Level" ∷ lit "High" ∷ lit "Zero" ∷ [])
    × (cells_of_row cost_figures 7 bare
        ≡ lit "Cost (@ $100/hr)"
          ∷ lit "$4"
          ∷ lit "800-$8"
          ∷ lit "000"
          ∷ (b'$' ∷ cost_figures.fixed2 (cost_metrics cost_figures bare).downtime_cost)
          ∷ [])
cells_of_row_test = cells_of_row_lem cost_figures bare no_comma
