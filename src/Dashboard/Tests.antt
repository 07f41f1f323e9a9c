-- ===== src/Dashboard/Tests.antt =====
-- The list of frontend/src/pages/Dashboard.tsx on small inputs, and its properties there.
use migration_safety_engine.Dashboard.Counter.{
  StatNumber, frames-value_changed, value_changed, frames, frame,
}
use migration_safety_engine.Dashboard.Refinement.{
  Choice, choice_handle_all, choice_of, handle_all-Refines,
}
use migration_safety_engine.Poll.Timers.{poll_cleanup}
use migration_safety_engine.Dashboard.Polling.{active_count, live-watch_all, opened_page, watch_all}
use migration_safety_engine.Api.Effects.{ok}
use migration_safety_engine.IdSet.{has, insert, remove}
use migration_safety_engine.Dashboard.Paging.{rows_before, rows_before-total_pages}
use migration_safety_engine.Dashboard.Pages.{page_numbers, page_rows, total_pages, num, dots}
use migration_safety_engine.Dashboard.Numbers.{has_no_gap, has_no_gap-page_numbers}
use migration_safety_engine.Types.States.{State, state_text, done, canary}
use migration_safety_engine.Dashboard.Rows.{
  Rows, ids_of, terminal_rows, toggle_select, filtered, prune,
}
use migration_safety_engine.Types.Records.{MigrationRecord}
use migration_safety_engine.Dashboard.Invariant.{
  Event, click_delete, click_row, handle_all, start_delete-shown, answer, handle,
}
use migration_safety_engine.Dashboard.Events.{
  Dashboard, ask_delete, choose_row, set_search, start_delete, mounted, fetched, shown,
}
use migration_safety_engine.Prelude.{
  Bool, List, Text, [], arith, false, if◌then◌else◌, includes, leb, length, lit, map, none, refl,
  suc, text_eq, true, zero, ℕ, ◌&&◌, ◌*◌, ◌+◌, ◌∷◌, ◌≡◌, ltb, ◌/◌,
}

abbrev numbers_below : ℕ → List ℕ
numbers_below zero = []
numbers_below (suc n) = n ∷ numbers_below n

pages_test :
    (page_numbers 10 5 ≡ num 0 ∷ dots ∷ num 4 ∷ num 5 ∷ num 6 ∷ dots ∷ num 9 ∷ [])
    × (page_numbers 10 3 ≡ num 0 ∷ num 2 ∷ num 3 ∷ num 4 ∷ dots ∷ num 9 ∷ [])
    × (total_pages (numbers_below 41) ≡ 3)
unfolding page_numbers total_pages
pages_test = (refl, refl, refl)

rows_before-total_pages_example :
    rows_before (numbers_below 41) (total_pages (numbers_below 41)) ≡ numbers_below 41
rows_before-total_pages_example = rows_before-total_pages (numbers_below 41)

has_no_gap-page_numbers_example : has_no_gap (page_numbers 10 3) ≡ false
has_no_gap-page_numbers_example = has_no_gap-page_numbers 10 3 (omega arith)

abbrev pub migration : Text → State → Bool → MigrationRecord ℕ
migration id state terminal = record {
  migration_id = id;
  plan_id = lit "plan";
  state = state;
  terminal = terminal;
  updated_at = [];
  table = none;
  plan = none;
  row_count = none;
  duration = none;
  data_parity = none;
  rows_verified = none;
  drift_detected = none;
  throttle_events = none;
  data_loss = none;
  uptime = none;
  downtime_cost = none;
  downtime_seconds = none;
  engineering_saved = none;
  cost_saved = none;
  throughput = none;
  source_rows = none;
  dest_rows = none;
  source_checksum = none;
  dest_checksum = none;
  null_mismatches = none;
  type_conversion_valid = none;
  fk_integrity_valid = none;
  verification_method = none;
  deletes_processed = none;
  updates_processed = none;
  alters_handled = none;
  start_time = none;
  end_time = none;
  throttle_events_list = none;
  rollback_events = none;
}

abbrev pub rows : Rows ℕ
rows = migration (lit "m1") done true ∷ migration (lit "m2") canary false ∷ []

-- lower case, for ASCII letters
abbrev pub ascii_lower : Text → Text
ascii_lower = map (λ c. if leb b'A' c && leb c b'Z' then c + 32 else c)

abbrev chosen : List (Event ℕ)
chosen = answer (ok rows) ∷ click_row (lit "m1") ∷ click_row (lit "m2") ∷ click_delete ∷ []

page : Unit {0}
unfolding handle_all handle fetched set_search choose_row ask_delete start_delete terminal_rows
    page_rows filtered state_text includes prune toggle_select has insert remove text_eq
page = tt

chosen_test :
    ((handle_all ascii_lower chosen (mounted ascii_lower)).selected ≡ lit "m1" ∷ [])
    × (filtered ascii_lower (lit "CAN") rows ≡ migration (lit "m2") canary false ∷ [])
unfolding page
chosen_test = (refl, refl)

sent_id :
    has
      (lit "m1")
      (start_delete ascii_lower (handle_all ascii_lower chosen (mounted ascii_lower))).1
    ≡ true
unfolding page
sent_id = refl

start_delete-shown_example :
    has
      (lit "m1")
      (ids_of (shown ascii_lower (handle_all ascii_lower chosen (mounted ascii_lower))))
    ≡ true
start_delete-shown_example = start_delete-shown ascii_lower chosen (lit "m1") sent_id

live-watch_all_example :
    (length (watch_all ascii_lower chosen (opened_page ascii_lower)).timers.live ≡ (
      if ltb 0 (active_count (watch_all ascii_lower chosen (opened_page ascii_lower)).dashboard)
      then 1
      else 0))
    × ((poll_cleanup (watch_all ascii_lower chosen (opened_page ascii_lower)).timers).live ≡ [])
live-watch_all_example = live-watch_all ascii_lower chosen

abbrev pub last_page : Dashboard ℕ
last_page = handle_all ascii_lower chosen (mounted ascii_lower)

abbrev last_choice : Choice ℕ
last_choice = choice_handle_all ascii_lower chosen (choice_of (mounted ascii_lower))

handle_all-Refines_example :
    (choice_of last_page ≡ last_choice)
    × ((x : Text) → has x (start_delete ascii_lower last_page).1 ≡ last_choice.chosen x)
handle_all-Refines_example = handle_all-Refines ascii_lower chosen (mounted ascii_lower)

-- Four hundred milliseconds after it began to count to 4, the number changes to 7.
abbrev counting : StatNumber
counting = record { displayed = 3; chains = record { target = 4; start = 10 } ∷ [] }

abbrev exact_part : ℕ → ℕ → ℕ
exact_part progress v = progress * v / 500

abbrev half_way : StatNumber
half_way = frames exact_part (500 ∷ 600 ∷ []) (frame exact_part 410 (value_changed 7 counting))

frames-value_changed_example :
    (frames exact_part (800 ∷ 1000 ∷ []) half_way ≡ record { displayed = 7; chains = [] })
    × (frames exact_part (800 ∷ 1000 ∷ []) (value_changed 0 half_way)
        ≡ record { displayed = 7; chains = [] })
frames-value_changed_example =
    frames-value_changed exact_part (λ v. omega arith) 7 410 1000 (500 ∷ 600 ∷ []) (800 ∷ [])
      counting (omega arith) (omega arith) (omega arith, tt) (omega arith, (omega arith, tt))
      (omega arith, tt) (omega arith)
