-- ===== src/Detail/Invariant.antt =====
-- When frontend/src/pages/MigrationDetail.tsx asks the server again, and what its answers change.
use mathlib.Core.Path.{subst}
use migration_safety_engine.Detail.View.{
  View, abort_finished, abort_started, ask_abort, cancel_abort, is_live, opened_view,
  record_fetched, safety_asked, safety_fetched, same_flag, schema_asked, schema_fetched,
  terminal_of, watch, closed,
}
use migration_safety_engine.Api.Effects.{Result, ok, thrown}
use migration_safety_engine.Types.Records.{MigrationRecord, SchemaResponse}
use migration_safety_engine.Poll.Lifecycle.{
  IsPolling, length-IsPolling, poll_again-IsPolling, poll_cleanup_lem, quiet,
}
use migration_safety_engine.Types.Reports.{
  BackfillProgressResponse, CanaryObservationsResponse, SafetyMetrics,
}
use migration_safety_engine.Prelude.{
  Bool-cases, List, Option, [], arith, false, if◌then◌else◌, inl, inr, length, none, not, refl,
  some, true, ◌&&◌, ◌∷◌, ◌≡◌,
}

pub data Event (Num : Type 0) : Type 0 where
  record_answer : Result (MigrationRecord Num) → Event Num
  ask_schema ask_safety click_abort click_cancel click_confirm : Event Num
  schema_answer : Result SchemaResponse → Event Num
  safety_answer :
      Result (SafetyMetrics Num)
      → Result (BackfillProgressResponse Num)
      → Result (CanaryObservationsResponse Num)
      → Event Num
  abort_answer : Result (Unit {0}) → Event Num

module _ {Num : Type 0} where
  unfoldable pub handle : Event Num → View Num → View Num
  unfolding record_fetched schema_asked schema_fetched safety_asked safety_fetched ask_abort
      cancel_abort abort_started abort_finished
  handle (record_answer r) = record_fetched r
  handle ask_schema = schema_asked
  handle ask_safety = safety_asked
  handle click_abort = ask_abort
  handle click_cancel = cancel_abort
  handle click_confirm = abort_started
  handle (schema_answer r) = schema_fetched r
  handle (safety_answer safety backfill canary) = safety_fetched safety backfill canary
  handle (abort_answer r) = abort_finished r

  unfoldable pub handle_all : List (Event Num) → View Num → View Num
  unfolding handle
  handle_all [] v = v
  handle_all (e ∷ es) v = handle_all es (handle e v)

  abbrev IsWatched : View Num → Type 0
  IsWatched v = IsPolling v.timers (is_live v.migration)

  is_live_of_same_flag :
      (o u : Option (MigrationRecord Num))
      → same_flag (terminal_of o) (terminal_of u) ≡ true
      → is_live o ≡ is_live u
  unfolding is_live
  is_live_of_same_flag none none e = refl
  is_live_of_same_flag none (some n) e = absurd (ground arith)
  is_live_of_same_flag (some m) none e = elim (Bool-cases m.terminal) [
    | inl h ↦ absurd (ground arith)
    | inr h ↦ absurd (ground arith)
  ]
  is_live_of_same_flag (some m) (some n) e = ground arith

  watch-IsWatched :
      (before : Option (MigrationRecord Num)) (v : View Num)
      → IsPolling v.timers (is_live before)
      → IsWatched (watch before v)
  unfolding watch
  watch-IsWatched before v h =
      elim (Bool-cases (same_flag (terminal_of before) (terminal_of v.migration))) [
        | inl same ↦
            rw same (subst (IsPolling v.timers) (is_live_of_same_flag before v.migration same) h)
        | inr changed ↦
            rw changed (poll_again-IsPolling v.timers (is_live before) (is_live v.migration) h)
      ]

  handle-IsWatched : (e : Event Num) (v : View Num) → IsWatched v → IsWatched (handle e v)
  unfolding handle record_fetched schema_asked schema_fetched safety_asked safety_fetched ask_abort
      cancel_abort abort_started abort_finished
  handle-IsWatched (record_answer (ok found)) v h =
      watch-IsWatched v.migration (record v { migration = some found; error = []; loading = false })
        h
  handle-IsWatched (record_answer (thrown message)) v h = h
  handle-IsWatched (schema_answer (ok res)) v h = h
  handle-IsWatched (schema_answer (thrown message)) v h = h
  handle-IsWatched (safety_answer (ok safety) (ok backfill) (ok canary)) v h = h
  handle-IsWatched (safety_answer (ok safety) (ok backfill) (thrown message)) v h = h
  handle-IsWatched (safety_answer (ok safety) (thrown message) canary) v h = h
  handle-IsWatched (safety_answer (thrown message) backfill canary) v h = h
  handle-IsWatched click_abort v h = elim (Bool-cases (is_live v.migration && not v.aborting)) [
    | inl enabled ↦ rw enabled h
    | inr disabled ↦ rw disabled h
  ]
  handle-IsWatched (abort_answer (ok done_value)) v h = h
  handle-IsWatched (abort_answer (thrown message)) v h = h
  handle-IsWatched _ v h = h

  handle_all-IsWatched :
      (es : List (Event Num)) (v : View Num) → IsWatched v → IsWatched (handle_all es v)
  unfolding handle_all
  handle_all-IsWatched [] v h = h
  handle_all-IsWatched (e ∷ es) v h = handle_all-IsWatched es (handle e v) (handle-IsWatched e v h)

  -- After any events since the page was opened, one interval asks for the record if the migration shown
  -- is running, and none does otherwise, for as many answers as have come; and none is left when the
  -- page is closed.
  pub live-handle_all :
      (es : List (Event Num))
      → (length (handle_all es (opened_view {Num = Num})).timers.live
          ≡ (if is_live (handle_all es (opened_view {Num = Num})).migration then 1 else 0))
        × ((closed (handle_all es (opened_view {Num = Num}))).timers.live ≡ [])
  unfolding closed
  live-handle_all es =
      let h = handle_all-IsWatched es opened_view (unfold is_live in quiet refl refl) in
      (
        length-IsPolling (handle_all es opened_view).timers
            (is_live (handle_all es opened_view).migration) h,
        poll_cleanup_lem (handle_all es opened_view).timers
            (is_live (handle_all es opened_view).migration) h,
      )
