-- ===== src/NewPlan/Flight.antt =====
-- The handlers `loadSchema` and `handleSubmit` of frontend/src/pages/NewPlan.tsx cut at their `await`: a call is
-- under way until its answer comes, and other events come between. The request of a call is sent when
-- it starts, and the world does not depend on its answer.
use migration_safety_engine.Api.Calls.{fetch_schema, submit_plan}
use migration_safety_engine.Toast.Provider.{Provider, error}
use migration_safety_engine.NewPlan.Page.{
  Page, click_introspect, click_submit, load_finished, load_started, press_enter, submit_done,
  submit_failed, submit_started, Event, notify, handle, opened,
}
use migration_safety_engine.Types.Records.{MigrationPlan, PlanSubmission, SchemaResponse}
use migration_safety_engine.NewPlan.Form.{Form, Host, plan_of}
use migration_safety_engine.Api.Effects.{Answer, Result, World, ok, thrown, rejected}
use migration_safety_engine.Prelude.{
  Bool, List, Option, Text, [], false, get_elem?, if◌then◌else◌, is_empty, lit, none, some, suc,
  trim, true, zero, ℕ, ◌++◌, ◌∷◌,
}

-- The page, the table that a call of `api.fetchSchema` was started for, and the plans that calls of
-- `api.submitPlan` are under way for, the oldest first.
pub record Flight (Num : Type 0) : Type 0 where
  pub page : Page Num
  pub loading : Option Text
  pub sending : List (MigrationPlan Num)

pub data Move (Num : Type 0) : Type 0 where
  -- an event whose handler awaits nothing
  local : Event Num → Move Num
  start_load : Move Num
  end_load : Answer SchemaResponse → Move Num
  -- the button, and the shortcut
  start_submit start_shortcut : ℕ → Move Num
  -- the answer for the plan with this index
  end_submit : ℕ → Answer PlanSubmission → Move Num

abbrev pub remove_at : {A : Type 0} → ℕ → List A → List A
remove_at i [] = []
remove_at zero (x ∷ xs) = xs
remove_at (suc i) (x ∷ xs) = x ∷ remove_at i xs

module _ {Num : Type 0} where
  abbrev pub awaits : Event Num → Bool
  awaits (click_introspect answer) = true
  awaits (click_submit now answer) = true
  awaits (press_enter now answer) = true
  awaits _ = false

  -- `loadSchema`, up to its call
  abbrev pub no_table : Flight Num → Flight Num
  no_table s = record s { page = notify error (lit "Enter a table name first") s.page }

  abbrev pub send_load : Flight Num → Flight Num
  send_load s = record s {
    page = record (load_started s.page) {
      world = (fetch_schema (trim s.page.form.table) (rejected []) s.page.world).1;
    };
    loading = some s.page.form.table;
  }

  unfoldable pub begin_load : Flight Num → Flight Num
  unfolding load_started fetch_schema
  begin_load s =
      if s.page.form.loading_schema
      then s
      else if is_empty (trim s.page.form.table)
      then no_table s
      else send_load s

  unfoldable pub finish_load : Answer SchemaResponse → Flight Num → Flight Num
  unfolding load_finished fetch_schema
  finish_load answer s = elim s.loading [
    | none ↦ s
    | some table ↦ record s {
      page = load_finished table (fetch_schema (trim table) answer s.page.world).0 s.page;
      loading = none;
    }
  ]

  -- the rest of `handleSubmit`
  unfoldable pub submitted : MigrationPlan Num → Result PlanSubmission → Page Num → Page Num
  unfolding submit_done submit_failed
  submitted plan (ok result) p = submit_done plan result p
  submitted plan (thrown message) p = submit_failed message p

  unfoldable pub finish_submit : ℕ → Answer PlanSubmission → Flight Num → Flight Num
  unfolding submitted submit_plan
  finish_submit i answer s = elim (get_elem? s.sending i) [
    | none ↦ s
    | some plan ↦ record s {
      page = submitted plan (submit_plan plan answer s.page.world).0 s.page;
      sending = remove_at i s.sending;
    }
  ]

module _ {Num : Type 0} (H : Host Num) where
  abbrev pub send_submit : MigrationPlan Num → Flight Num → Flight Num
  send_submit plan s = record s {
    page = record (submit_started s.page) {
      world = (submit_plan plan (rejected []) s.page.world).1;
    };
    sending = s.sending ++ plan ∷ [];
  }

  -- `handleSubmit` of the rendering whose fields are `f`, up to its call
  unfoldable pub begin_submit : ℕ → Form Num → Flight Num → Flight Num
  unfolding submit_started submit_failed plan_of submit_plan
  begin_submit now f s = elim (plan_of H now f) [
    | ok plan ↦ send_submit plan s
    | thrown message ↦ record s { page = submit_failed message (submit_started s.page) }
  ]

  unfoldable pub move : Move Num → Flight Num → Flight Num
  unfolding handle begin_load finish_load begin_submit finish_submit
  move (local e) s = if awaits e then s else record s { page = handle H e s.page }
  move start_load s = begin_load s
  move (end_load answer) s = finish_load answer s
  move (start_submit now) s = if s.page.form.submitting then s else begin_submit now s.page.form s
  move (start_shortcut now) s = begin_submit now s.page.captured s
  move (end_submit i answer) s = finish_submit i answer s

  unfoldable pub move_all : List (Move Num) → Flight Num → Flight Num
  unfolding move
  move_all [] s = s
  move_all (m ∷ ms) s = move_all ms (move m s)

  abbrev pub opened_flight : World Num → Provider → Flight Num
  opened_flight w provider = record { page = opened H w provider; loading = none; sending = [] }
