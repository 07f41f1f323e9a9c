-- ===== src/NewPlan/FlightTests.antt =====
-- The calls of frontend/src/pages/NewPlan.tsx under way on small inputs, and their properties there.
use migration_safety_engine.NewPlan.Drops.{type_table-drops}
use migration_safety_engine.Toast.Provider.{initial}
use migration_safety_engine.Api.Effects.{ok, Answer, rejected, thrown}
use migration_safety_engine.NewPlan.Tests.{host, handlers, schema, world, answered}
use migration_safety_engine.NewPlan.Page.{type_table, click_drop, offers_drop}
use migration_safety_engine.NewPlan.Races.{
  pressed_twice, pressed_twice_lem, retyped_lem, retyped, Overlaps,
}
use migration_safety_engine.Api.Calls.{fetch_schema, submit_plan}
use migration_safety_engine.NewPlan.Form.{build_plan, first_form, plan_of}
use migration_safety_engine.Types.Records.{SchemaResponse, PlanSubmission}
use migration_safety_engine.NewPlan.InFlight.{InStep, move_all-InStep}
use migration_safety_engine.NewPlan.Flight.{
  Flight, Move, begin_load, begin_submit, end_load, end_submit, finish_load, finish_submit,
  move_all, opened_flight, send_load, start_load, start_submit, local, move, submitted, send_submit,
}
use migration_safety_engine.Prelude.{
  List, [], false, is_empty, is_space, length, lit, none, trim, trim_end, trim_start, true, ℕ, ◌∷◌,
}
use mathlib.Core.Path.{◌≡◌, refl}

abbrev flight : Flight ℕ
flight = opened_flight host world initial

abbrev moves : List (Move ℕ)
moves =
    start_load
    ∷ start_submit 7
    ∷ local (type_table (lit "b"))
    ∷ end_load schema
    ∷ start_submit 8
    ∷ end_submit 0 answered
    ∷ []

flight_handlers : Unit {0}
unfolding handlers move_all move begin_load finish_load begin_submit finish_submit submitted
flight_handlers = tt

moves_test :
    (length (move_all host moves flight).page.world.sent ≡ 2)
    × ((move_all host moves flight).sending ≡ [])
    × ((move_all host moves flight).page.location ≡ lit "/migrations/m1")
unfolding flight_handlers
moves_test = (refl, refl, refl)

move_all-InStep_example : InStep host (move_all host moves (opened_flight host world initial))
move_all-InStep_example =
    move_all-InStep host moves world initial (tt, (tt, (tt, (tt, (tt, (tt, tt))))))

abbrev one_column : SchemaResponse
one_column = record {
  table = lit "a";
  columns = record { name = lit "x"; type = lit "text"; nullable = true; default = none } ∷ [];
}

has_name : is_empty (trim flight.page.form.table) ≡ false
unfolding trim trim_start trim_end is_space
has_name = refl

schema_comes :
    (fetch_schema (trim flight.page.form.table) schema (send_load flight).page.world).0
    ≡ ok one_column
unfolding flight_handlers
schema_comes = refl

retyped_lem_example :
    ((retyped host (lit "b") schema flight).page.form.table ≡ lit "b")
    × ((retyped host (lit "b") schema flight).page.form.schema_loaded ≡ true)
    × ((retyped host (lit "b") schema flight).page.form.schema_columns ≡ one_column.columns)
retyped_lem_example = retyped_lem host (lit "b") schema one_column flight refl has_name schema_comes

first_plan :
    (now : ℕ) → plan_of host now (first_form host) ≡ ok (build_plan host now (first_form host))
unfolding plan_of
first_plan now = refl

abbrev offline : Answer PlanSubmission
offline = rejected (lit "offline")

not_sent :
    (submit_plan
      (build_plan host 7 (first_form host))
      offline
      (send_submit host
        (build_plan host 8 (first_form host))
        (send_submit host (build_plan host 7 (first_form host)) flight)).page.world).0
    ≡ thrown (lit "offline")
unfolding flight_handlers
not_sent = refl

pressed_twice_lem_example :
    Overlaps host
      (build_plan host 7 (first_form host))
      (build_plan host 8 (first_form host))
      (lit "offline")
      flight
      (pressed_twice host 7 8 offline flight)
pressed_twice_lem_example =
    pressed_twice_lem host 7 8 (build_plan host 7 (first_form host))
      (build_plan host 8 (first_form host)) (lit "offline") offline flight refl refl (first_plan 7)
      (first_plan 8) not_sent

abbrev dropping : Flight ℕ
dropping = record flight {
  page = record flight.page { form = record (first_form host) { drop_columns = lit "x" ∷ [] } };
}

abbrev later : List (Move ℕ)
later = local (click_drop (lit "x")) ∷ start_submit 7 ∷ end_load schema ∷ end_submit 0 offline ∷ []

type_table-drops_example :
    ((build_plan host 9
        (move_all host (local (type_table (lit "b")) ∷ later) dropping).page.form).drop_columns
      ≡ (build_plan host 9 dropping.page.form).drop_columns)
    × (offers_drop
          (lit "x")
          (move_all host (local (type_table (lit "b")) ∷ later) dropping).page.form
        ≡ false)
type_table-drops_example =
    type_table-drops host (lit "b") later dropping 9 (lit "x") refl (tt, (tt, (tt, (tt, tt))))
