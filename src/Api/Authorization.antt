-- ===== src/Api/Authorization.antt =====
-- Which requests of the client of frontend/src/lib/api.ts carry the token.
use migration_safety_engine.Api.Client.{
  json_headers, xhr_headers, authorize, request, headers, is_truthy,
}
use migration_safety_engine.Api.Uri.{encode_uri_component}
use migration_safety_engine.Api.Calls.{
  abort_migration, delete_migrations, drift_scan, fetch_schema, get_backfill_progress,
  get_canary_observations, get_migration, get_safety_metrics, list_migrations, reset_demo,
  submit_plan, health, login, logout,
}
use migration_safety_engine.Api.Effects.{
  Request, World, http_delete, http_get, http_post, ids_payload, plan_payload, credentials, ok,
}
use migration_safety_engine.Dict.{get, Dict, put}
use migration_safety_engine.Api.Session.{
  Call, abort_call, backfill_call, canary_call, delete_call, drift_call, get_call, health_call,
  list_call, login_call, logout_call, reset_call, safety_call, schema_call, submit_call, visible,
  run, run_all,
}
use mathlib.Core.List.{append-nil}
use migration_safety_engine.Prelude.{
  All, Bool, List, Option, Text, [], arith, false, if◌then◌else◌, lit, none, some, sym, text_eq,
  true, ◌++◌, ◌∷◌, ◌≡◌, All-append, refl,
}

-- The value of the `Authorization` header for a token.
abbrev pub bearer : Option Text → Option Text
bearer none = none
bearer (some []) = none
bearer (some (c ∷ s)) = some (lit "Bearer " ++ c ∷ s)

module _ {Num : Type 0} where
  -- The calls that send the token: all but the health check, the login and the logout.
  abbrev pub sends_token : Call Num → Bool
  sends_token (health_call answer) = false
  sends_token (login_call username password answer) = false
  sends_token logout_call = false
  sends_token _ = true

  abbrev pub expected : Call Num → World Num → Option Text
  expected c w = if sends_token c then bearer (visible w) else none

  abbrev signed : Dict Text → World Num → Dict Text
  signed extra w = authorize (visible w) extra

  abbrev escaped : Option Text → (Text → List (Request Num)) → List (Request Num)
  escaped none k = []
  escaped (some s) k = k s

  -- The requests of a call, by its method and path.
  unfoldable pub requests_of : Call Num → World Num → List (Request Num)
  requests_of (health_call answer) w = request http_get (lit "/healthz") [] none ∷ []
  requests_of (login_call username password answer) w =
      request http_post (lit "/auth/login") json_headers (some (credentials username password)) ∷ []
  requests_of logout_call w = []
  requests_of (get_call id answer) w =
      request http_get (lit "/migrations/" ++ id) (signed xhr_headers w) none ∷ []
  requests_of (submit_call plan answer) w =
      request http_post (lit "/plans") (signed json_headers w) (some (plan_payload plan)) ∷ []
  requests_of (drift_call plan answer) w =
      request http_post (lit "/drift-scan") (signed json_headers w) (some (plan_payload plan)) ∷ []
  requests_of (list_call answer) w = request http_get (lit "/migrations") (signed [] w) none ∷ []
  requests_of (reset_call answer) w = request http_post (lit "/reset-demo") (signed [] w) none ∷ []
  requests_of (abort_call id answer) w =
      request http_post (lit "/migrations/" ++ (id ++ lit "/abort")) (signed [] w) none ∷ []
  requests_of (delete_call ids answer) w =
      request http_delete (lit "/migrations") (signed json_headers w) (some (ids_payload ids)) ∷ []
  requests_of (schema_call table answer) w =
      escaped (encode_uri_component table)
        (λ s. request http_get (lit "/schema/" ++ s) (signed [] w) none ∷ [])
  requests_of (safety_call id answer) w =
      request http_get (lit "/migrations/" ++ (id ++ lit "/safety")) (signed xhr_headers w) none
      ∷ []
  requests_of (backfill_call id answer) w =
      request http_get (lit "/migrations/" ++ (id ++ lit "/backfill")) (signed xhr_headers w) none
      ∷ []
  requests_of (canary_call id answer) w =
      request http_get (lit "/migrations/" ++ (id ++ lit "/canary")) (signed xhr_headers w) none
      ∷ []

  abbrev pub HasToken : Option Text → Request Num → Type 0
  HasToken value r = get (lit "Authorization") r.headers ≡ value

  headers_lem : (extra : Dict Text) (w : World Num) → (headers extra w).0 ≡ ok (signed extra w)
  unfolding headers
  headers_lem extra w = ground arith

  sent-run : (c : Call Num) (w : World Num) → (run c w).1.sent ≡ w.sent ++ requests_of c w
  unfolding run health login logout get_migration submit_plan drift_scan list_migrations reset_demo
      abort_migration delete_migrations fetch_schema get_safety_metrics get_backfill_progress
      get_canary_observations requests_of
  sent-run logout_call w = sym (append-nil w.sent)
  sent-run (schema_call table answer) w = ground (arith, append-nil w.sent)
  sent-run (health_call answer) w = ground arith
  sent-run _ w = ground arith

  requests_of-HasToken :
      (c : Call Num) (w : World Num) → All (HasToken (expected c w)) (requests_of c w)
  unfolding requests_of get put text_eq
  requests_of-HasToken logout_call w = tt
  requests_of-HasToken (schema_call table answer) w = ground arith
  requests_of-HasToken _ w = ground arith

  -- A call appends its requests to those sent before, by their method, path and body; each of them
  -- carries `Bearer` and the token that the client sees, if it is a call that needs the token and there
  -- is one, and no `Authorization` header otherwise.
  pub run-requests_of :
      (c : Call Num) (w : World Num)
      → ((run c w).1.sent ≡ w.sent ++ requests_of c w)
        × All (HasToken (expected c w)) (requests_of c w)
  run-requests_of c w = (sent-run c w, requests_of-HasToken c w)

  -- The calls that leave the user logged out: all but a login.
  abbrev pub is_login : Call Num → Bool
  is_login (login_call username password answer) = true
  is_login _ = false

  abbrev pub IsLoggedOut : World Num → Type 0
  IsLoggedOut w = (is_truthy w.token ≡ false) × (is_truthy w.stored ≡ false)

  run-IsLoggedOut :
      (c : Call Num) (w : World Num) → is_login c ≡ false → IsLoggedOut w → IsLoggedOut (run c w).1
  unfolding run health login logout get_migration submit_plan drift_scan list_migrations reset_demo
      abort_migration delete_migrations fetch_schema get_safety_metrics get_backfill_progress
      get_canary_observations
  run-IsLoggedOut (login_call username password answer) w e h = cc
  run-IsLoggedOut (health_call answer) w e h = ground arith
  run-IsLoggedOut _ w e h = ground arith

  expected_logged_out : (c : Call Num) (w : World Num) → IsLoggedOut w → expected c w ≡ none
  expected_logged_out c w h = ground arith

  run_all_logged_out :
      (cs : List (Call Num)) (w : World Num)
      → All (λ c. is_login c ≡ false) cs
      → IsLoggedOut w
      → All (HasToken none) w.sent
      → All (HasToken none) (run_all cs w).sent
  unfolding run_all
  run_all_logged_out [] w e h k = k
  run_all_logged_out (c ∷ cs) w e h k =
      run_all_logged_out cs (run c w).1 e.1 (run-IsLoggedOut c w e.0 h) (
        rw (sent-run c w) (
          All-append (HasToken none) w.sent (requests_of c w) k
            (rw (expected_logged_out c w h) at (requests_of-HasToken c w))))

  -- From a logout on, whatever calls are made and however they end, no request carries a token until
  -- the next login.
  pub logout-run_all :
      (w : World Num) (cs : List (Call Num))
      → All (λ c. is_login c ≡ false) cs
      → All (HasToken none) (run_all cs (record (run logout_call w).1 { sent = [] })).sent
  unfolding run logout
  logout-run_all w cs e = run_all_logged_out cs _ e (refl, refl) tt
