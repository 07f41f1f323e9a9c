-- ===== src/Api/Sent.antt =====
-- The request that a method of frontend/src/lib/api.ts sends, with the token that the client sees.
use migration_safety_engine.Api.Session.{visible}
use migration_safety_engine.Api.Client.{json_headers, xhr_headers, request, authorize}
use migration_safety_engine.Api.Calls.{
  abort_migration, delete_migrations, get_migration, list_migrations, reset_demo, submit_plan,
}
use migration_safety_engine.Dashboard.Rows.{Rows}
use migration_safety_engine.Types.Records.{MigrationPlan, MigrationRecord, PlanSubmission}
use migration_safety_engine.Api.Effects.{
  Answer, Request, World, http_delete, http_get, http_post, ids_payload, plan_payload,
}
use migration_safety_engine.Prelude.{List, Text, [], arith, lit, none, some, ◌++◌, ◌∷◌, ◌≡◌}

module _ {Num : Type 0} where
  abbrev pub delete_request : List Text → World Num → Request Num
  delete_request ids w =
      request http_delete (lit "/migrations") (authorize (visible w) json_headers)
        (some (ids_payload ids))

  abbrev pub list_request : World Num → Request Num
  list_request w = request http_get (lit "/migrations") (authorize (visible w) []) none

  abbrev pub reset_request : World Num → Request Num
  reset_request w = request http_post (lit "/reset-demo") (authorize (visible w) []) none

  abbrev pub plan_request : MigrationPlan Num → World Num → Request Num
  plan_request plan w =
      request http_post (lit "/plans") (authorize (visible w) json_headers)
        (some (plan_payload plan))

  abbrev pub abort_request : Text → World Num → Request Num
  abort_request id w =
      request http_post (lit "/migrations/" ++ (id ++ lit "/abort")) (authorize (visible w) []) none

  abbrev pub get_request : Text → World Num → Request Num
  get_request id w =
      request http_get (lit "/migrations/" ++ id) (authorize (visible w) xhr_headers) none

  pub sent-delete_migrations :
      (ids : List Text) (answer : Answer (Unit {0})) (w : World Num)
      → (delete_migrations ids answer w).1.sent ≡ w.sent ++ delete_request ids w ∷ []
  unfolding delete_migrations
  sent-delete_migrations ids answer w = ground arith

  pub visible-delete_migrations :
      (ids : List Text) (answer : Answer (Unit {0})) (w : World Num)
      → visible (delete_migrations ids answer w).1 ≡ visible w
  unfolding delete_migrations
  visible-delete_migrations ids answer w = ground arith

  pub sent-list_migrations :
      (answer : Answer (Rows Num)) (w : World Num)
      → (list_migrations answer w).1.sent ≡ w.sent ++ list_request w ∷ []
  unfolding list_migrations
  sent-list_migrations answer w = ground arith

  pub sent-reset_demo :
      (answer : Answer (Unit {0})) (w : World Num)
      → (reset_demo answer w).1.sent ≡ w.sent ++ reset_request w ∷ []
  unfolding reset_demo
  sent-reset_demo answer w = ground arith

  pub visible-reset_demo :
      (answer : Answer (Unit {0})) (w : World Num) → visible (reset_demo answer w).1 ≡ visible w
  unfolding reset_demo
  visible-reset_demo answer w = ground arith

  pub sent-submit_plan :
      (plan : MigrationPlan Num) (answer : Answer PlanSubmission) (w : World Num)
      → (submit_plan plan answer w).1.sent ≡ w.sent ++ plan_request plan w ∷ []
  unfolding submit_plan
  sent-submit_plan plan answer w = ground arith

  pub visible-submit_plan :
      (plan : MigrationPlan Num) (answer : Answer PlanSubmission) (w : World Num)
      → visible (submit_plan plan answer w).1 ≡ visible w
  unfolding submit_plan
  visible-submit_plan plan answer w = ground arith

  pub sent-abort_migration :
      (id : Text) (answer : Answer (Unit {0})) (w : World Num)
      → (abort_migration id answer w).1.sent ≡ w.sent ++ abort_request id w ∷ []
  unfolding abort_migration
  sent-abort_migration id answer w = ground arith

  pub visible-abort_migration :
      (id : Text) (answer : Answer (Unit {0})) (w : World Num)
      → visible (abort_migration id answer w).1 ≡ visible w
  unfolding abort_migration
  visible-abort_migration id answer w = ground arith

  pub sent-get_migration :
      (id : Text) (answer : Answer (MigrationRecord Num)) (w : World Num)
      → (get_migration id answer w).1.sent ≡ w.sent ++ get_request id w ∷ []
  unfolding get_migration
  sent-get_migration id answer w = ground arith
