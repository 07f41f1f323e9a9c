-- ===== src/Detail/Flow.antt =====
-- The header, the progress bar and the table `State Flow` of frontend/src/pages/MigrationDetail.tsx.
use migration_safety_engine.Api.Uri.{decimal}
use migration_safety_engine.Detail.View.{View, flow_index, is_live, progress}
use migration_safety_engine.Types.States.{
  pending, expanding, backfilling, verifying, canary, cutover, contracting, done, rolling_back,
  rolled_back, State, state_color, state_flow, state_label, state_text,
}
use migration_safety_engine.Types.Records.{MigrationRecord}
use migration_safety_engine.Prelude.{
  zero, ◌||◌, ◌-◌, Bool, List, Option, Text, [], false, if◌then◌else◌, length, lit, ltb, none, not,
  refl, some, text_eq, true, ℕ, ◌&&◌, ◌*◌, ◌++◌, ◌+◌, ◌/◌, ◌==◌, ◌∷◌, ◌≡◌, suc, map,
}

-- `String(n).padStart(2, '0')`
abbrev pub pad_number : ℕ → Text
pad_number n = if ltb n 10 then b'0' ∷ decimal n else decimal n

-- `i < currentIdx` and `i === currentIdx`, where a state that is not in the list has the index -1
unfoldable pub is_past : ℕ → Option ℕ → Bool
is_past i none = false
is_past i (some current_idx) = ltb i current_idx

unfoldable pub is_current : ℕ → Option ℕ → Bool
is_current i none = false
is_current i (some current_idx) = i == current_idx

pub record FlowRow : Type 0 where
  pub background : Option Text
  pub border_left : Text
  pub number : Text
  pub badge_background : Text
  pub badge_color : Text
  pub badge_border : Text
  pub label : Text
  pub status : Text

unfoldable pub status_of : Bool → Bool → Bool → Text
status_of past current live =
    if past
    then lit "Passed"
    else if current && live
    then lit "Current"
    else if current && not live
    then lit "Complete"
    else lit "—"

unfoldable pub flow_row : Option ℕ → Bool → ℕ → State → FlowRow
unfolding is_past is_current status_of state_color state_label
flow_row current_idx live i s =
    let past = is_past i current_idx in
    let current = is_current i current_idx in
    record {
      background = if current then some (state_color s ++ lit "08") else none;
      border_left =
          if current then lit "3px solid " ++ state_color s else lit "3px solid transparent";
      number = pad_number (i + 1);
      badge_background = if past then state_color s ++ lit "15" else lit "transparent";
      badge_color =
          if past
          then state_color s
          else if current
          then state_color s
          else lit "var(--text-muted)";
      badge_border =
          lit "1px solid "
          ++ (if past || current then state_color s ++ lit "30" else lit "var(--border)");
      label = state_label s;
      status = status_of past current live;
    }

-- `STATE_FLOW.map`
unfoldable pub flow_rows_from : Option ℕ → Bool → ℕ → List State → List FlowRow
unfolding flow_row
flow_rows_from current_idx live i [] = []
flow_rows_from current_idx live i (s ∷ ss) =
    flow_row current_idx live i s ∷ flow_rows_from current_idx live (i + 1) ss

unfoldable pub flow_rows : State → Bool → List FlowRow
unfolding flow_rows_from flow_index
flow_rows s live = flow_rows_from (flow_index s state_flow) live 0 state_flow

-- `{currentIdx + 1} of {STATE_FLOW.length}`
unfoldable pub flow_count : State → Text
unfolding flow_index
flow_count s =
    elim (flow_index s state_flow) [ none ↦ lit "0" | some i ↦ decimal (i + 1) ]
    ++ (lit " of " ++ decimal (length state_flow))

-- What stands under the header: a text, or the panels of the record.
pub data Body (Num : Type 0) : Type 0 where
  loading_body not_found_body : Body Num
  panels : MigrationRecord Num → Body Num

pub data ChartSlot : Type 0 where
  no_slot zero_slot chart_slot : ChartSlot

module _ {Num : Type 0} where
  unfoldable pub page_body : View Num → Body Num
  page_body v =
      if v.loading
      then loading_body
      else elim v.migration [ none ↦ not_found_body | some m ↦ panels m ]

  -- the live indicator, and the badge of the header: background, color, border and label
  unfoldable pub shows_live : View Num → Bool
  unfolding is_live
  shows_live v = is_live v.migration

  unfoldable pub header_badge : View Num → Option (Text × Text × Text × Text)
  unfolding state_color state_label
  header_badge v = elim v.migration [
    | none ↦ none
    | some m ↦ some (
      state_color m.state ++ lit "18",
      state_color m.state,
      lit "1px solid " ++ (state_color m.state ++ lit "30"),
      state_label m.state,
    )
  ]

  -- the color of the percentage, and the width, the background and the shadow of the bar
  unfoldable pub progress_bar : View Num → State → Text × Text × Text × Text
  unfolding is_live progress
  progress_bar v s =
      let live = is_live v.migration in
      (
        if live then lit "var(--accent)" else lit "var(--success)",
        decimal (progress s) ++ lit "%",
        if live then lit "var(--gradient-primary)" else lit "var(--gradient-success)",
        if live then lit "0 0 12px var(--accent-glow)" else lit "0 0 12px var(--success-glow)",
      )

  -- the color and the text of `Status`
  unfoldable pub status_item : MigrationRecord Num → Text × Text
  status_item m =
      if m.terminal
      then (lit "var(--success)", lit "Terminal")
      else (lit "var(--warning)", lit "Running")

  -- the panels that are there once the migration is over
  unfoldable pub shows_summary : MigrationRecord Num → Bool
  shows_summary m = m.terminal

  -- `record.throttle_events && record.throttle_events > 0 && ...`: a 0 is an element that is shown.
  -- `truthy` is the truth of a number, `positive` its test `> 0`.
  unfoldable pub throttle_slot : (Num → Bool) → (Num → Bool) → MigrationRecord Num → ChartSlot
  throttle_slot truthy positive m = elim m.throttle_events [
    | none ↦ no_slot
    | some n ↦ if truthy n then (if positive n then chart_slot else no_slot) else zero_slot
  ]

  -- the button under the actions: whether it is disabled, and its text
  unfoldable pub abort_button : View Num → MigrationRecord Num → Option (Bool × Text)
  abort_button v m =
      if m.terminal
      then none
      else some (v.aborting, if v.aborting then lit "Aborting..." else lit "Abort & Rollback")

abbrev fill : ℕ → Text → List Text
fill zero t = []
fill (suc n) t = t ∷ fill n t

abbrev statuses_of : State → Bool → List Text
statuses_of s live = map (λ r. r.status) (flow_rows s live)

-- The column of a state with `i` states before it: those have passed, and it is the current one or, once
-- the migration is over, complete.
abbrev expected_statuses : Option ℕ → Bool → List Text
expected_statuses none live = fill 8 (lit "—")
expected_statuses (some i) live =
    fill i (lit "Passed")
    ++ (if live then lit "Current" else lit "Complete") ∷ fill (7 - i) (lit "—")

-- In the table of the flow every state before the current one has passed, the current one is marked as
-- current, or as complete if the migration is over, and no later one is marked; of a migration that is
-- rolling back, or has been rolled back, no state is marked, and its progress is 0%.
pub flow_rows_lem :
    (s : State) (live : Bool)
    → (statuses_of s live ≡ expected_statuses (flow_index s state_flow) live)
      × (progress s ≡ elim (flow_index s state_flow) [ none ↦ 0 | some i ↦ ((i + 1) * 25 + 1) / 2 ])
unfolding flow_rows flow_rows_from flow_row is_past is_current status_of flow_index state_text
    text_eq progress
flow_rows_lem pending true = (refl, refl)
flow_rows_lem pending false = (refl, refl)
flow_rows_lem expanding true = (refl, refl)
flow_rows_lem expanding false = (refl, refl)
flow_rows_lem backfilling true = (refl, refl)
flow_rows_lem backfilling false = (refl, refl)
flow_rows_lem verifying true = (refl, refl)
flow_rows_lem verifying false = (refl, refl)
flow_rows_lem canary true = (refl, refl)
flow_rows_lem canary false = (refl, refl)
flow_rows_lem cutover true = (refl, refl)
flow_rows_lem cutover false = (refl, refl)
flow_rows_lem contracting true = (refl, refl)
flow_rows_lem contracting false = (refl, refl)
flow_rows_lem done true = (refl, refl)
flow_rows_lem done false = (refl, refl)
flow_rows_lem rolling_back true = (refl, refl)
flow_rows_lem rolling_back false = (refl, refl)
flow_rows_lem rolled_back true = (refl, refl)
flow_rows_lem rolled_back false = (refl, refl)
