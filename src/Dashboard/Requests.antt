-- ===== src/Dashboard/Requests.antt =====
-- `handleBulkDelete` and `handleRunDemo` of frontend/src/pages/Dashboard.tsx with the requests that they send and
-- the notifications that they show.
use migration_safety_engine.Api.Uri.{decimal}
use migration_safety_engine.Api.Calls.{delete_migrations, list_migrations, reset_demo, submit_plan}
use migration_safety_engine.Dashboard.Rows.{Rows}
use migration_safety_engine.Types.Records.{MigrationPlan, PlanSubmission}
use migration_safety_engine.Dashboard.Events.{
  Dashboard, finish_delete, finish_demo, start_delete, start_demo, fetched,
}
use migration_safety_engine.Prelude.{List, Text, [], if◌then◌else◌, length, lit, ℕ, ◌++◌, ◌==◌, ◌∷◌}
use migration_safety_engine.Toast.Provider.{success, error, Provider, toast}
use migration_safety_engine.Api.Effects.{ok, thrown, Answer, World}

-- The page with what it acts on, and the pages that a timeout will go to.
pub record Console (Num : Type 0) : Type 0 where
  pub dashboard : Dashboard Num
  pub world : World Num
  pub provider : Provider
  pub visits : List Text

-- the message of a deletion of `n` migrations
unfoldable pub deleted_text : ℕ → Text
deleted_text n =
    lit "Deleted " ++ (decimal n ++ (lit " migration" ++ (if n == 1 then [] else lit "s")))

module _ {Num : Type 0} (lower : Text → Text) where
  -- The answer of the `fetchMigrations` that follows a success is awaited too.
  unfoldable pub handle_bulk_delete :
      Answer (Unit {0}) → Answer (Rows Num) → Console Num → Console Num
  unfolding start_delete finish_delete fetched delete_migrations list_migrations toast deleted_text
  handle_bulk_delete deleted listed s =
      let (page, ids) = start_delete lower s.dashboard in
      let (r, w) = delete_migrations ids deleted s.world in
      elim r [
        | ok done_value ↦
            let (got, w') = list_migrations listed w in
            record s {
              dashboard = fetched lower got (finish_delete lower (ok done_value) page);
              world = w';
              provider = toast success (deleted_text (length ids)) s.provider;
            }
        | thrown message ↦ record s {
          dashboard = finish_delete lower (thrown message) page;
          world = w;
          provider = toast error message s.provider;
        }
      ]

  unfoldable pub demo_failed : Text → World Num → Console Num → Console Num
  unfolding start_demo finish_demo toast
  demo_failed message w s = record s {
    dashboard = finish_demo lower (thrown message) (start_demo lower s.dashboard);
    world = w;
    provider = toast error message s.provider;
  }

  -- `plan` is DEMO_PLAN with the time as its version
  unfoldable pub handle_run_demo :
      MigrationPlan Num → Answer (Unit {0}) → Answer PlanSubmission → Console Num → Console Num
  unfolding demo_failed start_demo finish_demo reset_demo submit_plan toast
  handle_run_demo plan emptied answer s =
      let (r, w) = reset_demo emptied s.world in
      elim r [
        | ok done_value ↦
            let (q, w') = submit_plan plan answer w in
            elim q [
              | ok result ↦ record {
                dashboard = finish_demo lower (ok result) (start_demo lower s.dashboard);
                world = w';
                provider = toast success (lit "Demo started") s.provider;
                visits = s.visits ++ (lit "/migrations/" ++ result.migration_id) ∷ [];
              }
              | thrown message ↦ demo_failed message w' s
            ]
        | thrown message ↦ demo_failed message w s
      ]
