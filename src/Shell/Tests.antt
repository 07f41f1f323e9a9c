-- ===== src/Shell/Tests.antt =====
-- The application (frontend/src/App.tsx, pages/LoginPage.tsx) and the tour on small inputs, and their
-- properties there.
use migration_safety_engine.Shell.TerminalLines.{lines_of_demo, rollback_lines}
use migration_safety_engine.Shell.Landing.{
  BentoBackfill, count_rows, first_parity, play_backfill, play_backfill-ends, reveal_all,
  shows_score, tick_backfill, ticks, reveal,
}
use migration_safety_engine.Shell.Terminal.{
  advance_all, first_tick, run_demo, second_tick, visible_text, visible_text_lem, Moment,
  click_toggle, opened_terminal, run_effects, toggle_mode, effects, advance, tick,
}
use migration_safety_engine.Toast.Provider.{initial, toast}
use migration_safety_engine.Api.Calls.{list_migrations, login, logout}
use migration_safety_engine.Api.Session.{list_call, visible, run}
use migration_safety_engine.Api.Client.{
  LoginData, get_token, is_truthy, require_ok, require_ok_text, set_token, headers,
}
use migration_safety_engine.Shell.Tour.{
  Click, click_all-ends, click_back, opened_tour, step_count, click_next, click_all, click, nexts,
}
use migration_safety_engine.Api.Effects.{
  Answer, Result, is_ok, responded, thrown, ok, rejected, fetch,
}
use migration_safety_engine.Prelude.{
  List, Option, Text, [], false, lit, none, refl, some, split, true, ℕ, ◌-◌, ◌<◌, ◌∷◌, ◌≡◌, length,
  arith, ◌++◌,
}
use migration_safety_engine.Shell.Session.{
  Event, handle, handle_all, click_logout, click_sign_in, handle_all-IsInStep, opened_screen,
  page_call, click_demo,
}
use migration_safety_engine.Api.Session.{run}
use migration_safety_engine.Shell.App.{
  Screen, app_started, first_app, handle_login, handle_logout, instant_demo, logged_in,
  submit_login, token_role,
}

abbrev welcome : Answer LoginData
welcome = responded (record {
  status = 200;
  text = ok [];
  json = ok (record { token = lit "t"; role = lit "admin" });
})

abbrev visit : List (Event ℕ)
visit =
    click_demo (rejected (lit "offline"))
    ∷ click_sign_in welcome
    ∷ page_call (list_call (rejected (lit "offline")))
    ∷ []

abbrev no_role : Text → Result (Option Text)
no_role s = thrown (lit "InvalidCharacterError")

abbrev first_screen : Screen ℕ
first_screen = opened_screen no_role none none initial

visit_handlers : Unit {0}
unfolding handle_all handle submit_login instant_demo logged_in handle_login handle_logout login
    logout set_token fetch require_ok_text is_ok toast run list_migrations headers get_token
    require_ok app_started token_role
visit_handlers = tt

visit_test :
    ((handle_all visit first_screen).app.user_role ≡ some (lit "admin"))
    × ((handle_all visit first_screen).app.show_onboarding ≡ true)
    × ((handle_all (click_logout ∷ []) (handle_all visit first_screen)).app.is_authenticated
        ≡ false)
    × ((app_started no_role (first_app {Num = ℕ} (some (lit "a")) none)).user_role
        ≡ some (lit "viewer"))
unfolding visit_handlers split
visit_test = (refl, refl, refl, refl)

handle_all-IsInStep_example :
    (handle_all visit first_screen).app.is_authenticated
    ≡ is_truthy (visible (handle_all visit first_screen).app.world)
handle_all-IsInStep_example =
    handle_all-IsInStep no_role none none initial visit (refl, (refl, (refl, tt)))

abbrev clicks : List Click
clicks = click_next ∷ click_next ∷ click_back ∷ []

under_way : (click_all clicks opened_tour).completed ≡ false
unfolding click_all click
under_way = refl

click_all_test :
    ((click_all clicks opened_tour).step < step_count)
    × ((click_all
          (nexts (step_count - (click_all clicks opened_tour).step))
          (click_all clicks opened_tour)).completed
        ≡ true)
click_all_test = click_all-ends clicks under_way

abbrev moments : List Moment
moments = effects ∷ first_tick ∷ second_tick ∷ click_toggle ∷ effects ∷ first_tick ∷ []

terminal_handlers : Unit {0}
unfolding advance_all advance tick run_effects run_demo toggle_mode visible_text
terminal_handlers = tt

effects_ran : (advance_all moments opened_terminal).effects_due ≡ false
unfolding terminal_handlers
effects_ran = refl

visible_text_lem_example :
    length (visible_text (advance_all moments opened_terminal))
    < length (lines_of_demo (advance_all moments opened_terminal).demo)
visible_text_lem_example = visible_text_lem moments effects_ran

abbrev fifteen_ticks : List Moment
fifteen_ticks =
    let five = first_tick ∷ first_tick ∷ first_tick ∷ first_tick ∷ first_tick ∷ [] in
    five ++ (five ++ five)

-- Before the effects of a change run, all the lines of the other demo are there.
toggled_test :
    visible_text (advance_all (effects ∷ (fifteen_ticks ++ click_toggle ∷ [])) opened_terminal)
    ≡ rollback_lines
unfolding terminal_handlers
toggled_test = refl

-- two ticks before the end of the counter, with the third to spare
abbrev almost_full : BentoBackfill
almost_full = record { paused = false; rows = 99850; live = true }

play_backfill-ends_example :
    ((play_backfill (ticks (120 ∷ 299 ∷ 100 ∷ [])) almost_full).live ≡ false)
    × ((play_backfill (ticks (120 ∷ 299 ∷ 100 ∷ [])) almost_full).rows ≡ 100000)
play_backfill-ends_example =
    play_backfill-ends 120 (299 ∷ 100 ∷ []) almost_full
      ((omega arith, omega arith), ((omega arith, omega arith), ((omega arith, omega arith), tt)))
      refl (omega arith)

-- The counter passes 100,000 for a tick.
overfull_test : (play_backfill (ticks (120 ∷ 299 ∷ [])) almost_full).rows ≡ 100269
unfolding play_backfill tick_backfill count_rows
overfull_test = refl

parity_test :
    (shows_score (reveal_all 5 first_parity) ≡ true)
    × ((reveal_all 5 first_parity).interval ≡ true)
    × ((reveal_all 6 first_parity).interval ≡ false)
unfolding shows_score reveal_all reveal
parity_test = (refl, refl, refl)
