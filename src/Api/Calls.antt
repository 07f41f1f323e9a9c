-- ===== src/Api/Calls.antt =====
-- The methods of `ApiClient` (frontend/src/lib/api.ts) that call the server. `answer` is what the
-- method's `fetch` comes to.
use migration_safety_engine.Api.Uri.{encode_uri_component}
use migration_safety_engine.Types.Records.{
  MigrationPlan, MigrationRecord, PlanSubmission, SchemaResponse,
}
use migration_safety_engine.Api.Client.{
  LoginData, json_headers, require_ok, require_ok_text, set_token, xhr_headers, headers, request,
  base,
}
use migration_safety_engine.Types.Reports.{
  BackfillProgressResponse, CanaryObservationsResponse, DriftReport, SafetyMetrics,
}
use migration_safety_engine.Prelude.{List, Option, Text, [], lit, none, some, ◌++◌}
use migration_safety_engine.Api.Effects.{
  ◌>>=◌, ◌>>◌, Action, Answer, Result, http_delete, http_get, http_post, ids_payload, plan_payload,
  lift, thrown, fetch, ok, credentials,
}

abbrev encoded : Option Text → Result Text
encoded none = thrown (lit "URI malformed")
encoded (some s) = ok s

module _ {Num : Type 0} where
  unfoldable pub health : Answer Text → Action Num Text
  unfolding fetch require_ok
  health answer = do
    res ← fetch answer (request http_get (base ++ lit "/healthz") [] none)
    require_ok (lit "health check failed: ") res
    lift res.text

  unfoldable pub login : Text → Text → Answer LoginData → Action Num LoginData
  unfolding fetch require_ok_text set_token
  login username password answer = do
    res ← fetch answer (
        request http_post (base ++ lit "/auth/login") json_headers
          (some (credentials username password)))
    require_ok_text (lit "login failed: ") res
    found ← lift res.json
    λ w. (ok found, set_token (some found.token) w)

  unfoldable pub logout : Action Num Unit
  unfolding set_token
  logout w = (ok tt, set_token none w)

  unfoldable pub get_migration :
      Text → Answer (MigrationRecord Num) → Action Num (MigrationRecord Num)
  unfolding headers fetch require_ok
  get_migration id answer = do
    h ← headers xhr_headers
    res ← fetch answer (request http_get (base ++ (lit "/migrations/" ++ id)) h none)
    require_ok (lit "get migration: ") res
    lift res.json

  unfoldable pub submit_plan : MigrationPlan Num → Answer PlanSubmission → Action Num PlanSubmission
  unfolding headers fetch require_ok_text
  submit_plan plan answer = do
    h ← headers json_headers
    res ← fetch answer (request http_post (base ++ lit "/plans") h (some (plan_payload plan)))
    require_ok_text (lit "submit plan: ") res
    lift res.json

  unfoldable pub drift_scan :
      MigrationPlan Num → Answer (DriftReport Num) → Action Num (DriftReport Num)
  unfolding headers fetch require_ok_text
  drift_scan plan answer = do
    h ← headers json_headers
    res ← fetch answer (request http_post (base ++ lit "/drift-scan") h (some (plan_payload plan)))
    require_ok_text (lit "drift scan: ") res
    lift res.json

  unfoldable pub list_migrations :
      Answer (List (MigrationRecord Num)) → Action Num (List (MigrationRecord Num))
  unfolding headers fetch require_ok
  list_migrations answer = do
    h ← headers []
    res ← fetch answer (request http_get (base ++ lit "/migrations") h none)
    require_ok (lit "list migrations: ") res
    lift res.json

  unfoldable pub reset_demo : Answer Unit → Action Num Unit
  unfolding headers fetch require_ok
  reset_demo answer = do
    h ← headers []
    res ← fetch answer (request http_post (base ++ lit "/reset-demo") h none)
    require_ok (lit "reset demo: ") res

  unfoldable pub abort_migration : Text → Answer Unit → Action Num Unit
  unfolding headers fetch require_ok
  abort_migration id answer = do
    h ← headers []
    res ←
        fetch answer
          (request http_post (base ++ (lit "/migrations/" ++ (id ++ lit "/abort"))) h none)
    require_ok (lit "abort migration: ") res

  unfoldable pub delete_migrations : List Text → Answer Unit → Action Num Unit
  unfolding headers fetch require_ok_text
  delete_migrations ids answer = do
    h ← headers json_headers
    res ← fetch answer (request http_delete (base ++ lit "/migrations") h (some (ids_payload ids)))
    require_ok_text (lit "delete migrations: ") res

  unfoldable pub fetch_schema : Text → Answer SchemaResponse → Action Num SchemaResponse
  unfolding headers fetch require_ok_text
  fetch_schema table answer = do
    name ← lift (encoded (encode_uri_component table))
    h ← headers []
    res ← fetch answer (request http_get (base ++ (lit "/schema/" ++ name)) h none)
    require_ok_text (lit "fetch schema: ") res
    lift res.json

  unfoldable pub get_safety_metrics :
      Text → Answer (SafetyMetrics Num) → Action Num (SafetyMetrics Num)
  unfolding headers fetch require_ok
  get_safety_metrics id answer = do
    h ← headers xhr_headers
    res ←
        fetch answer
          (request http_get (base ++ (lit "/migrations/" ++ (id ++ lit "/safety"))) h none)
    require_ok (lit "get safety metrics: ") res
    lift res.json

  unfoldable pub get_backfill_progress :
      Text → Answer (BackfillProgressResponse Num) → Action Num (BackfillProgressResponse Num)
  unfolding headers fetch require_ok
  get_backfill_progress id answer = do
    h ← headers xhr_headers
    res ←
        fetch answer
          (request http_get (base ++ (lit "/migrations/" ++ (id ++ lit "/backfill"))) h none)
    require_ok (lit "get backfill progress: ") res
    lift res.json

  unfoldable pub get_canary_observations :
      Text → Answer (CanaryObservationsResponse Num) → Action Num (CanaryObservationsResponse Num)
  unfolding headers fetch require_ok
  get_canary_observations id answer = do
    h ← headers xhr_headers
    res ←
        fetch answer
          (request http_get (base ++ (lit "/migrations/" ++ (id ++ lit "/canary"))) h none)
    require_ok (lit "get canary observations: ") res
    lift res.json
