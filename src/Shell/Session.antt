-- ===== src/Shell/Session.antt =====
-- A session of the application (frontend/src/App.tsx, pages/LoginPage.tsx): logins, logouts and the calls
-- of the pages, in any order.
use migration_safety_engine.Api.Calls.{
  abort_migration, delete_migrations, drift_scan, fetch_schema, get_backfill_progress,
  get_canary_observations, get_migration, get_safety_metrics, list_migrations, reset_demo,
  submit_plan, login, health, logout,
}
use migration_safety_engine.Toast.Provider.{Provider}
use migration_safety_engine.Api.Client.{LoginData, is_truthy, get_token}
use migration_safety_engine.Api.Session.{Call, health_call, login_call, logout_call, run, visible}
use migration_safety_engine.Shell.App.{
  App, LoginForm, app_started, empty_login, first_app, handle_logout, handle_onboarding_complete,
  instant_demo, submit_login, Screen, handle_login, logged_in,
}
use migration_safety_engine.Api.Effects.{
  Answer, Result, World, rejected, responded, thrown, ok, Result-cases,
}
use migration_safety_engine.Prelude.{
  Bool, List, Option, Text, [], arith, false, if◌then◌else◌, is_empty, lit, not, true, ◌&&◌, ◌∷◌,
  ◌≡◌, All, Bool-cases, ap, inl, inr, sym, ◌∙◌, refl,
}

pub data Event (Num : Type 0) : Type 0 where
  type_username type_password : Text → Event Num
  toggle_login : Bool → Event Num
  click_sign_in click_demo : Answer LoginData → Event Num
  click_logout click_tour_end : Event Num
  page_call : Call Num → Event Num

-- The server answers a login with a token.
abbrev pub has_token : Answer LoginData → Bool
has_token (rejected message) = true
has_token (responded r) = elim r.json [ ok found ↦ not (is_empty found.token) | thrown m ↦ true ]

module _ {Num : Type 0} where
  -- A call that a page makes: the login and the logout are those of the other events.
  abbrev pub is_page_call : Call Num → Bool
  is_page_call (login_call username password answer) = false
  is_page_call logout_call = false
  is_page_call _ = true

  abbrev in_form : (LoginForm → LoginForm) → Screen Num → Screen Num
  in_form change s = record s { form = change s.form }

  abbrev in_app : (App Num → App Num) → Screen Num → Screen Num
  in_app change s = record s { app = change s.app }

  -- The login page is there while nobody is logged in, and the other pages otherwise.
  unfoldable pub handle : Event Num → Screen Num → Screen Num
  unfolding submit_login instant_demo handle_logout handle_onboarding_complete run
  handle (type_username t) s = in_form (λ f. record f { username = t }) s
  handle (type_password t) s = in_form (λ f. record f { password = t }) s
  handle (toggle_login shown) s = in_form (λ f. record f { show_login = shown }) s
  handle (click_sign_in answer) s = if s.app.is_authenticated then s else submit_login answer s
  handle (click_demo answer) s = if s.app.is_authenticated then s else instant_demo answer s
  handle click_logout s = if s.app.is_authenticated then in_app handle_logout s else s
  handle click_tour_end s = in_app handle_onboarding_complete s
  handle (page_call c) s =
      if s.app.is_authenticated && is_page_call c
      then in_app (λ a. record a { world = (run c a.world).1 }) s
      else s

  unfoldable pub handle_all : List (Event Num) → Screen Num → Screen Num
  unfolding handle
  handle_all [] s = s
  handle_all (e ∷ es) s = handle_all es (handle e s)

  abbrev pub gives_token : Event Num → Bool
  gives_token (click_sign_in answer) = has_token answer
  gives_token (click_demo answer) = has_token answer
  gives_token _ = true

  abbrev pub opened_screen :
      (Text → Result (Option Text)) → Option Text → Option Text → Provider → Screen Num
  opened_screen payload_role stored onboarded provider = record {
    app = app_started payload_role (first_app stored onboarded);
    form = empty_login;
    provider = provider;
    location = lit "/";
  }

  -- The application takes the user for logged in exactly if the client has a token to send.
  abbrev pub IsInStep : App Num → Type 0
  IsInStep a = a.is_authenticated ≡ is_truthy (visible a.world)

  login_thrown :
      (username password message : Text) (answer : Answer LoginData) (w : World Num)
      → (login username password answer w).0 ≡ thrown message
      → visible (login username password answer w).1 ≡ visible w
  unfolding login
  login_thrown username password message answer w h = ground arith

  login_ok :
      (username password : Text) (found : LoginData) (answer : Answer LoginData) (w : World Num)
      → has_token answer ≡ true
      → (login username password answer w).0 ≡ ok found
      → is_truthy (visible (login username password answer w).1) ≡ true
  unfolding login
  login_ok username password found answer w token h = ground arith

  visible-run :
      (c : Call Num) (w : World Num) → is_page_call c ≡ true → visible (run c w).1 ≡ visible w
  unfolding run health get_migration submit_plan drift_scan list_migrations reset_demo
      abort_migration delete_migrations fetch_schema get_safety_metrics get_backfill_progress
      get_canary_observations
  visible-run (login_call username password answer) w h = absurd (ground arith)
  visible-run logout_call w h = absurd (ground arith)
  visible-run (health_call answer) w h = ground arith
  visible-run _ w h = ground arith

  -- What a login attempt leaves behind.
  submit_login-IsInStep :
      (answer : Answer LoginData) (s : Screen Num)
      → has_token answer ≡ true
      → IsInStep s.app
      → IsInStep (submit_login answer s).app
  unfolding submit_login logged_in handle_login
  submit_login-IsInStep answer s token h =
      elim (Result-cases (login s.form.username s.form.password answer s.app.world).0) [
        | inl (m, e) ↦
            rw (e, submit_login)
              (h
                ∙ ap is_truthy
                    (sym (login_thrown s.form.username s.form.password m answer s.app.world e)))
        | inr (found, e) ↦
            rw (e, submit_login)
              (sym (login_ok s.form.username s.form.password found answer s.app.world token e))
      ]

  instant_demo-IsInStep :
      (answer : Answer LoginData) (s : Screen Num)
      → has_token answer ≡ true
      → IsInStep s.app
      → IsInStep (instant_demo answer s).app
  unfolding instant_demo logged_in handle_login
  instant_demo-IsInStep answer s token h =
      elim (Result-cases (login (lit "admin") (lit "admin123") answer s.app.world).0) [
        | inl (m, e) ↦
            rw (e, instant_demo)
              (h
                ∙ ap is_truthy
                    (sym (login_thrown (lit "admin") (lit "admin123") m answer s.app.world e)))
        | inr (found, e) ↦
            rw (e, instant_demo)
              (sym (login_ok (lit "admin") (lit "admin123") found answer s.app.world token e))
      ]

  handle_logout-IsInStep : (a : App Num) → IsInStep (handle_logout a)
  unfolding handle_logout logout
  handle_logout-IsInStep a = ground arith

  either-IsInStep :
      (b : Bool) (s t : Screen Num)
      → IsInStep s.app
      → IsInStep t.app
      → IsInStep (if b then s else t).app
  either-IsInStep true s t h k = h
  either-IsInStep false s t h k = k

  page_call-IsInStep :
      (c : Call Num) (s : Screen Num) → IsInStep s.app → IsInStep (handle (page_call c) s).app
  unfolding handle
  page_call-IsInStep c s h = elim (Bool-cases (is_page_call c)) [
    | inl page ↦
        either-IsInStep (s.app.is_authenticated && is_page_call c)
          (in_app (λ a. record a { world = (run c a.world).1 }) s) s
          (h ∙ ap is_truthy (sym (visible-run c s.app.world page))) h
    | inr other ↦
        let never : (s.app.is_authenticated && is_page_call c) ≡ false = ground arith in rw never h
  ]

  handle-IsInStep :
      (e : Event Num) (s : Screen Num)
      → gives_token e ≡ true
      → IsInStep s.app
      → IsInStep (handle e s).app
  unfolding handle handle_onboarding_complete
  handle-IsInStep (click_sign_in answer) s g h =
      either-IsInStep s.app.is_authenticated s (submit_login answer s) h
        (submit_login-IsInStep answer s g h)
  handle-IsInStep (click_demo answer) s g h =
      either-IsInStep s.app.is_authenticated s (instant_demo answer s) h
        (instant_demo-IsInStep answer s g h)
  handle-IsInStep click_logout s g h =
      either-IsInStep s.app.is_authenticated (in_app handle_logout s) s
        (handle_logout-IsInStep s.app) h
  handle-IsInStep (page_call c) s g h = page_call-IsInStep c s h
  handle-IsInStep _ s g h = h

  handle_all-keeps_IsInStep :
      (es : List (Event Num)) (s : Screen Num)
      → All (λ e. gives_token e ≡ true) es
      → IsInStep s.app
      → IsInStep (handle_all es s).app
  unfolding handle_all
  handle_all-keeps_IsInStep [] s g h = h
  handle_all-keeps_IsInStep (e ∷ es) s g h =
      handle_all-keeps_IsInStep es (handle e s) g.1 (handle-IsInStep e s g.0 h)

  app_started-IsInStep :
      (payload_role : Text → Result (Option Text)) (a : App Num)
      → a.is_authenticated ≡ false
      → IsInStep (app_started payload_role a)
  unfolding app_started get_token
  app_started-IsInStep payload_role a h = ground arith

  -- After any logins, logouts and calls of the pages since the application was opened, failing ones
  -- included, where no successful login gives an empty token, the user is taken for logged in exactly if
  -- the client has a token to send.
  pub handle_all-IsInStep :
      (payload_role : Text → Result (Option Text)) (stored onboarded : Option Text)
      (provider : Provider) (es : List (Event Num))
      → All (λ e. gives_token e ≡ true) es
      → IsInStep (handle_all es (opened_screen payload_role stored onboarded provider)).app
  handle_all-IsInStep payload_role stored onboarded provider es g =
      handle_all-keeps_IsInStep es (opened_screen payload_role stored onboarded provider) g
        (app_started-IsInStep payload_role (first_app stored onboarded) refl)
