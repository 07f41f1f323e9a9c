-- ===== src/Shell/App.antt =====
-- The state of frontend/src/App.tsx with the entry `mse_onboarded` of the storage, and the handlers of
-- frontend/src/pages/LoginPage.tsx. `payload_role` is the `role` of `JSON.parse(atob(s))`, or its failure;
-- `atob(undefined)` always fails.
use migration_safety_engine.Api.Calls.{logout, login}
use migration_safety_engine.Api.Session.{page_load}
use migration_safety_engine.Toast.Provider.{Provider, toast, success, error}
use migration_safety_engine.Api.Client.{LoginData, get_token, is_truthy}
use migration_safety_engine.Api.Effects.{Answer, Result, World, ok, thrown}
use migration_safety_engine.Prelude.{
  Bool, Option, Text, [], false, get_elem?, if◌then◌else◌, lit, none, some, split, true, ◌++◌,
}

pub record App (Num : Type 0) : Type 0 where
  pub world : World Num
  pub is_authenticated : Bool
  pub user_role : Option Text
  pub show_onboarding : Bool
  pub onboarded : Option Text

pub record LoginForm : Type 0 where
  pub username : Text
  pub password : Text
  pub loading : Bool
  pub error : Text
  pub show_login : Bool

pub record Screen (Num : Type 0) : Type 0 where
  pub app : App Num
  pub form : LoginForm
  pub provider : Provider
  pub location : Text

abbrev pub empty_login : LoginForm
empty_login = record {
  username = [];
  password = [];
  loading = false;
  error = [];
  show_login = false;
}

-- the role that a token carries
unfoldable pub token_role : (Text → Result (Option Text)) → Text → Option Text
token_role payload_role token = elim (get_elem? (split b'.' token) 1) [
  | none ↦ some (lit "viewer")
  | some part ↦ elim (payload_role part) [ ok role ↦ role | thrown message ↦ some (lit "viewer") ]
]

abbrev pub role_of : (Text → Result (Option Text)) → Option Text → Option Text
role_of payload_role none = none
role_of payload_role (some token) = token_role payload_role token

module _ {Num : Type 0} where
  abbrev pub first_app : Option Text → Option Text → App Num
  first_app stored onboarded = record {
    world = page_load stored;
    is_authenticated = false;
    user_role = none;
    show_onboarding = false;
    onboarded = onboarded;
  }

  -- the effect of the first rendering
  unfoldable pub app_started : (Text → Result (Option Text)) → App Num → App Num
  unfolding get_token token_role
  app_started payload_role a =
      let (token, w) = get_token a.world in
      if is_truthy token
      then record a { world = w; is_authenticated = true; user_role = role_of payload_role token }
      else record a { world = w }

  unfoldable pub handle_login : Text → App Num → App Num
  handle_login role a = record a {
    is_authenticated = true;
    user_role = some role;
    show_onboarding = if is_truthy a.onboarded then a.show_onboarding else true;
  }

  unfoldable pub handle_logout : App Num → App Num
  unfolding logout
  handle_logout a = record a {
    world = (logout a.world).1;
    is_authenticated = false;
    user_role = none;
  }

  unfoldable pub handle_onboarding_complete : App Num → App Num
  handle_onboarding_complete a = record a { onboarded = some (lit "1"); show_onboarding = false }

  -- what follows a successful `api.login`, with the text of the notification
  unfoldable pub logged_in : Text → LoginData → Screen Num → Screen Num
  unfolding handle_login toast
  logged_in message found s = record s {
    app = handle_login found.role s.app;
    form = record s.form { loading = false };
    provider = toast success message s.provider;
    location = lit "/";
  }

  -- `handleSubmit`
  unfoldable pub submit_login : Answer LoginData → Screen Num → Screen Num
  unfolding login logged_in toast
  submit_login answer s =
      let started = record s { form = record s.form { loading = true; error = [] } } in
      let (r, w) = login s.form.username s.form.password answer s.app.world in
      elim r [
        | ok found ↦
            logged_in (lit "Logged in as " ++ found.role) found
              (record started { app = record s.app { world = w } })
        | thrown message ↦ record started {
          app = record s.app { world = w };
          form = record s.form { loading = false; error = message };
          provider = toast error message s.provider;
        }
      ]

  -- `handleInstantDemo`
  unfoldable pub instant_demo : Answer LoginData → Screen Num → Screen Num
  unfolding login logged_in toast
  instant_demo answer s =
      let started = record s { form = record s.form { loading = true } } in
      let (r, w) = login (lit "admin") (lit "admin123") answer s.app.world in
      elim r [
        | ok found ↦
            logged_in (lit "Sandbox loaded") found
              (record started { app = record s.app { world = w } })
        | thrown message ↦ record started {
          app = record s.app { world = w };
          form = record s.form { loading = false };
          provider = toast error message s.provider;
        }
      ]
