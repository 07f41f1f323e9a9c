-- ===== src/NewPlan/Tests.antt =====
-- The form of frontend/src/pages/NewPlan.tsx on small inputs, and its properties there.
use migration_safety_engine.NewPlan.Ticked.{has_column, ticked-build_plan, ticked}
use migration_safety_engine.NewPlan.View.{
  cards_of, column_row, column_rows_of, drop_box, form_cards_of, plan_view,
}
use migration_safety_engine.IdSet.{has}
use migration_safety_engine.Toast.Provider.{initial, toast}
use migration_safety_engine.Api.Sent.{plan_request}
use migration_safety_engine.NewPlan.Shortcut.{sent-press_enter, after}
use migration_safety_engine.NewPlan.Invariant.{handle_all-IsValid, IsValid}
use migration_safety_engine.Api.Client.{get_token, require_ok_text, headers}
use migration_safety_engine.Api.Calls.{fetch_schema, submit_plan}
use migration_safety_engine.Api.Uri.{digits_from, encode_uri_component, is_unreserved, decimal}
use migration_safety_engine.NewPlan.Steps.{
  digit_of, keep_steps, parse_int, parse_steps, read_digits, read_from,
}
use migration_safety_engine.Types.Records.{PlanSubmission, SchemaResponse}
use migration_safety_engine.NewPlan.Page.{
  Page, change_column, click_drop, click_introspect, click_submit, load_finished, load_schema,
  load_started, press_enter, send_plan, submit_done, submit_failed, submit_started, type_table,
  opened, Event, handle_all, handle, submit,
}
use migration_safety_engine.NewPlan.Outcomes.{Outcome, submit-Outcome}
use migration_safety_engine.NewPlan.Canary.{parse_steps-print_steps, print_steps}
use migration_safety_engine.NewPlan.Form.{
  Host, build_plan, check_drop, first_form, name_to, named_columns, plan_of, update_column, Form,
}
use migration_safety_engine.Api.Effects.{Answer, World, is_ok, thrown, responded, ok, fetch}
use migration_safety_engine.Prelude.{
  List, [], arith, is_space, lit, none, refl, some, split, text_eq, trim, trim_end, trim_start,
  true, ℕ, ◌++◌, ◌∷◌, ◌≡◌, includes, length, or_else,
}

abbrev pub host : Host ℕ
host = record {
  literal = λ digits places. digits;
  parse_json = λ text. thrown (lit "Unexpected end of JSON input");
  print_json = λ plan. [];
  format_json = λ text. thrown (lit "Unexpected end of JSON input");
}

abbrev pub world : World ℕ
world = record { token = none; stored = some (lit "t"); sent = [] }

abbrev pub answered : Answer PlanSubmission
answered =
    responded
      (record { status = 202; text = ok []; json = ok (record { migration_id = lit "m1" }) })

abbrev pub schema : Answer SchemaResponse
schema = responded (record {
  status = 200;
  text = ok [];
  json = ok (record {
    table = lit "a";
    columns = record { name = lit "x"; type = lit "text"; nullable = true; default = none } ∷ [];
  });
})

abbrev page : Page ℕ
page = opened host world initial

abbrev filled : List (Event ℕ)
filled =
    type_table (lit "a")
    ∷ click_introspect schema
    ∷ click_drop (lit "x")
    ∷ change_column 0 (name_to (lit "c"))
    ∷ []

steps_test :
    (parse_steps (lit "1, 5, 25, 100") ≡ 1 ∷ 5 ∷ 25 ∷ 100 ∷ [])
    × (parse_steps (lit "0, -5, x, 12.5, 0x10, 101,7 %,") ≡ 12 ∷ 16 ∷ 7 ∷ [])
unfolding parse_steps split parse_int trim trim_start trim_end is_space keep_steps read_digits
    read_from digit_of
steps_test = (refl, refl)

unfoldable pub handlers : Unit {0}
unfolding handle_all handle load_schema load_started load_finished fetch_schema headers get_token
    fetch require_ok_text is_ok encode_uri_component is_unreserved decimal digits_from check_drop
    has text_eq trim trim_start trim_end is_space update_column toast build_plan named_columns
    submit submit_started submit_done submit_failed send_plan submit_plan plan_of
handlers = tt

filled_test :
    ((build_plan host 7 (handle_all host filled page).form).drop_columns ≡ some (lit "x" ∷ []))
    × ((build_plan host 7 (handle_all host filled page).form).id ≡ lit "migration-7")
    × ((handle host (click_submit 7 answered) (handle_all host filled page)).location
        ≡ lit "/migrations/m1")
unfolding handlers
filled_test = (refl, refl, refl)

sent-press_enter_example :
    (handle host (press_enter 7 answered) (after host filled world initial)).world.sent
    ≡ (after host filled world initial).world.sent
      ++ plan_request (build_plan host 7 (first_form host)) (after host filled world initial).world
        ∷ []
sent-press_enter_example = sent-press_enter host filled world initial 7 answered

submit-Outcome_example :
    Outcome host 7 (first_form host) answered page (submit host 7 (first_form host) answered page)
submit-Outcome_example = submit-Outcome host 7 (first_form host) answered page

parse_steps-print_steps_example : parse_steps (print_steps (1 ∷ 25 ∷ 100 ∷ [])) ≡ 1 ∷ 25 ∷ 100 ∷ []
parse_steps-print_steps_example =
    parse_steps-print_steps (1 ∷ 25 ∷ 100 ∷ [])
      ((omega arith, omega arith), ((omega arith, omega arith), ((omega arith, omega arith), tt)))

handle_all-IsValid_example : IsValid (handle_all host filled (opened host world initial)).form
handle_all-IsValid_example = handle_all-IsValid host filled world initial

-- The part of the form that the user sees, on the fields of the first rendering with a column of the schema
-- that is to be dropped.
abbrev seen : Form ℕ
seen = record (first_form host) {
  schema_loaded = true;
  schema_columns =
      record { name = lit "a"; type = lit "text"; nullable = true; default = none } ∷ [];
  drop_columns = lit "a" ∷ lit "b" ∷ [];
}

seen_test :
    ((form_cards_of seen).drop_boxes
      ≡ some (
          drop_box
            (lit "a" ∷ [])
            (record { name = lit "a"; type = lit "text"; nullable = true; default = none })
          ∷ []))
    × (length (form_cards_of seen).column_rows ≡ 1)
    × ((plan_view none seen).shortcut ≡ lit "Ctrl+Enter")
    × ((plan_view (some (lit "MacIntel")) seen).shortcut ≡ 0x2318 ∷ lit "Enter")
unfolding form_cards_of drop_box column_rows_of column_row plan_view cards_of has text_eq includes
seen_test = (refl, refl, refl, refl)

known_column : has_column (lit "a") seen.schema_columns ≡ true
unfolding has_column text_eq
known_column = refl

ticked-build_plan_example :
    has (lit "a") (or_else (build_plan host 7 seen).drop_columns [])
    ≡ ticked (lit "a") (or_else (form_cards_of seen).drop_boxes [])
ticked-build_plan_example = ticked-build_plan host 7 seen (lit "a") refl known_column
