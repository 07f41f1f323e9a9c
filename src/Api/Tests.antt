-- ===== src/Api/Tests.antt =====
-- The client of frontend/src/lib/api.ts on a short session, and its properties at inputs that meet their
-- hypotheses.
use migration_safety_engine.Dict.{get, put}
use migration_safety_engine.Api.Uri.{
  encode_uri_component, escape_byte, escape_point, hex_digit, is_unreserved, decimal,
}
use migration_safety_engine.Api.Failures.{call_failed, run_failed}
use migration_safety_engine.Api.Calls.{
  abort_migration, delete_migrations, drift_scan, fetch_schema, get_backfill_progress,
  get_canary_observations, get_migration, get_safety_metrics, list_migrations, reset_demo,
  submit_plan, health, login, logout,
}
use migration_safety_engine.Api.Effects.{
  Response, World, http_get, http_post, is_ok, ok, responded, rejected, thrown, credentials,
}
use migration_safety_engine.Api.Client.{LoginData, get_token, json_headers, request}
use migration_safety_engine.Api.PathSafety.{SendsSegment, fetch_schema-SendsSegment}
use migration_safety_engine.Api.Authorization.{
  HasToken, logout-run_all, requests_of, run-requests_of,
}
use migration_safety_engine.Api.Session.{
  Call, list_call, login_call, logout_call, page_load, run_all, schema_call, visible-run_all, run,
  visible,
}
use migration_safety_engine.Prelude.{
  All, List, [], lit, none, refl, some, text_eq, true, ℕ, ◌++◌, ◌∷◌, ◌≡◌, ◌≢◌,
}

abbrev fresh_page : World ℕ
fresh_page = page_load none

abbrev logged_in : Response LoginData
logged_in = record {
  status = 200;
  text = ok [];
  json = ok (record { token = lit "tok"; role = lit "admin" });
}

abbrev denied : Response LoginData
denied = record { status = 401; text = ok (lit "no"); json = thrown [] }

abbrev session : List (Call ℕ)
session =
    login_call (lit "ann") (lit "pw") (responded logged_in)
    ∷ list_call (rejected (lit "offline"))
    ∷ schema_call (lit "a/b") (rejected (lit "offline"))
    ∷ []

client : Unit {0}
unfolding run_all run health login logout get_migration submit_plan drift_scan list_migrations
    reset_demo abort_migration delete_migrations fetch_schema get_safety_metrics
    get_backfill_progress get_canary_observations encode_uri_component escape_point escape_byte
    hex_digit is_unreserved decimal get put text_eq
client = tt

session_test :
    (run_all session fresh_page).sent
    ≡ request http_post (lit "/auth/login") json_headers (some (credentials (lit "ann") (lit "pw")))
      ∷ request http_get (lit "/migrations") ((lit "Authorization", lit "Bearer tok") ∷ []) none
      ∷ request http_get (lit "/schema/a%2Fb") ((lit "Authorization", lit "Bearer tok") ∷ []) none
      ∷ []
unfolding client
session_test = refl

denied_test :
    (run (login_call (lit "ann") (lit "pw") (responded denied)) fresh_page).0
    ≡ some (lit "login failed: 401 no")
unfolding client
denied_test = refl

euro_test :
    encode_uri_component (0x20ac ∷ 0xd83d ∷ 0xde00 ∷ []) ≡ some (lit "%E2%82%AC%F0%9F%98%80")
unfolding client
euro_test = refl

visible-run_all_example :
    (get_token (run_all session (page_load none))).0 ≡ (run_all session (page_load none)).stored
visible-run_all_example = visible-run_all none session

run-requests_of_example :
    ((run (list_call (rejected (lit "offline"))) (page_load (some (lit "tok")))).1.sent
      ≡ []
        ++ requests_of
            (list_call (rejected (lit "offline")))
            (page_load {Num = ℕ} (some (lit "tok"))))
    × All (HasToken (some (lit "Bearer tok"))) (
        requests_of (list_call (rejected (lit "offline"))) (page_load {Num = ℕ} (some (lit "tok"))))
run-requests_of_example =
    run-requests_of (list_call (rejected (lit "offline"))) (page_load {Num = ℕ} (some (lit "tok")))

abbrev two_calls : List (Call ℕ)
two_calls = list_call (rejected (lit "offline")) ∷ logout_call ∷ []

logout-run_all_example :
    All
      (HasToken none)
      (run_all two_calls
        (record (run logout_call (page_load {Num = ℕ} (some (lit "tok")))).1 { sent = [] })).sent
logout-run_all_example = logout-run_all (page_load (some (lit "tok"))) two_calls (refl, (refl, tt))

abbrev failing : Call ℕ
failing = login_call (lit "ann") (lit "pw") (responded denied)

failing_failed : call_failed failing ≡ true
unfolding call_failed is_ok
failing_failed = refl

run_failed_example :
    ((run failing (page_load (some (lit "old")))).0 ≢ none)
    × (visible (run failing (page_load (some (lit "old")))).1 ≡ some (lit "old"))
    × ((run failing (page_load (some (lit "old")))).1.stored ≡ some (lit "old"))
run_failed_example = run_failed failing (page_load (some (lit "old"))) failing_failed

fetch_schema-SendsSegment_example :
    SendsSegment {Num = ℕ} (lit "a/b?") (rejected (lit "offline")) (page_load (some (lit "t")))
fetch_schema-SendsSegment_example =
    fetch_schema-SendsSegment (lit "a/b?") (rejected (lit "offline")) (page_load (some (lit "t")))
