-- ===== src/NewPlan/Page.antt =====
-- The handlers of frontend/src/pages/NewPlan.tsx: loading the schema, submitting, and the key handler.
-- `captured` is the form at the first rendering: `useCallback` with no dependencies keeps the key
-- handler of that rendering, and with it the `handleSubmit` that reads those fields.
use migration_safety_engine.Api.Uri.{decimal}
use migration_safety_engine.IdSet.{has}
use migration_safety_engine.Api.Calls.{fetch_schema, submit_plan}
use migration_safety_engine.Toast.Provider.{Provider, ToastType, toast, success, error, info}
use migration_safety_engine.Types.Records.{MigrationPlan, PlanSubmission, SchemaResponse}
use migration_safety_engine.NewPlan.Form.{
  Change, Form, Host, Mode, check_drop, empty_column, first_form, form_mode, json_mode, plan_of,
  remove_column, update_column,
}
use migration_safety_engine.Api.Effects.{Answer, Result, World, ok, thrown}
use migration_safety_engine.Prelude.{
  Bool, List, Text, [], any, drop, false, if◌then◌else◌, includes, is_empty, length, lit, ltb, not,
  split, text_eq, trim, true, ℕ, ◌&&◌, ◌++◌, ◌∷◌, join,
}

pub record Page (Num : Type 0) : Type 0 where
  pub captured : Form Num
  pub form : Form Num
  pub world : World Num
  pub provider : Provider
  -- the path that the router was last sent to
  pub location : Text

-- `msg` of `handleSubmit`
unfoldable pub error_text : Text → Text
unfolding join
error_text message =
    if includes (lit "JSON") message
    then lit "Invalid JSON: " ++ trim (join b':' (drop 1 (split b':' message)))
    else message

module _ {Num : Type 0} where
  abbrev pub notify : ToastType → Text → Page Num → Page Num
  notify kind message p = record p { provider = toast kind message p.provider }

  unfoldable pub submit_started : Page Num → Page Num
  submit_started p = record p { form = record p.form { error = []; submitting = true } }

  -- the rest of `try` and the `finally`
  unfoldable pub submit_done : MigrationPlan Num → PlanSubmission → Page Num → Page Num
  submit_done plan result p =
      record (notify success (lit "Migration \"" ++ (plan.id ++ lit "\" submitted")) p) {
        location = lit "/migrations/" ++ result.migration_id;
        form = record p.form { submitting = false };
      }

  -- `catch` and `finally`
  unfoldable pub submit_failed : Text → Page Num → Page Num
  unfolding error_text
  submit_failed message p = record (notify error (error_text message) p) {
    form = record p.form { error = error_text message; submitting = false };
  }

  -- `await api.submitPlan(plan)` and what follows it
  unfoldable pub send_plan : MigrationPlan Num → Answer PlanSubmission → Page Num → Page Num
  unfolding submit_done submit_failed submit_plan
  send_plan plan answer p =
      let (r, w) = submit_plan plan answer p.world in
      elim r [
        | ok result ↦ submit_done plan result (record p { world = w })
        | thrown message ↦ submit_failed message (record p { world = w })
      ]

  -- `loadSchema`, up to the call
  unfoldable pub load_started : Page Num → Page Num
  load_started p = record p { form = record p.form { loading_schema = true } }

  -- from the result of `api.fetchSchema` on; `table` is the field at the time of the call
  unfoldable pub load_finished : Text → Result SchemaResponse → Page Num → Page Num
  load_finished table (ok res) p =
      record (notify success
        (lit "Loaded " ++ (decimal (length res.columns) ++ (lit " columns from " ++ table))) p) {
          form = record p.form {
            schema_columns = res.columns;
            schema_loaded = true;
            loading_schema = false;
          };
        }
  load_finished table (thrown message) p = record (notify error message p) {
    form = record p.form { loading_schema = false };
  }

  unfoldable pub load_schema : Answer SchemaResponse → Page Num → Page Num
  unfolding load_started load_finished fetch_schema
  load_schema answer p =
      if is_empty (trim p.form.table)
      then notify error (lit "Enter a table name first") p
      else (let (r, w) = fetch_schema (trim p.form.table) answer p.world in
          load_finished p.form.table r (record (load_started p) { world = w }))

module _ {Num : Type 0} (H : Host Num) where
  abbrev pub opened : World Num → Provider → Page Num
  opened w provider = record {
    captured = first_form H;
    form = first_form H;
    world = w;
    provider = provider;
    location = lit "/plans/new";
  }

  -- `handleSubmit` of the rendering whose fields are `f`
  unfoldable pub submit : ℕ → Form Num → Answer PlanSubmission → Page Num → Page Num
  unfolding submit_started send_plan submit_failed plan_of
  submit now f answer p = elim (plan_of H now f) [
    | ok plan ↦ send_plan plan answer (submit_started p)
    | thrown message ↦ submit_failed message (submit_started p)
  ]

  -- `handleFormat`
  unfoldable pub format : Page Num → Page Num
  format p = elim (H.format_json p.form.json) [
    | ok text ↦ record (notify info (lit "JSON formatted") p) {
      form = record p.form { json = text };
    }
    | thrown message ↦ record p { form = record p.form { error = lit "Invalid JSON" } }
  ]

pub data Event (Num : Type 0) : Type 0 where
  type_table type_id type_steps type_json : Text → Event Num
  type_p99 type_error_rate type_parity : Num → Event Num
  click_mode click_format click_add : Event Num
  change_column : ℕ → Change → Event Num
  click_remove : ℕ → Event Num
  click_drop : Text → Event Num
  click_introspect : Answer SchemaResponse → Event Num
  click_submit press_enter : ℕ → Answer PlanSubmission → Event Num

abbrev pub other_mode : Mode → Mode
other_mode form_mode = json_mode
other_mode json_mode = form_mode

-- The box of a column is on the screen.
abbrev pub offers_drop : {Num : Type 0} → Text → Form Num → Bool
offers_drop name f = f.schema_loaded && any (λ c. text_eq c.name name) f.schema_columns

module _ {Num : Type 0} (H : Host Num) where
  abbrev edit : (Form Num → Form Num) → Page Num → Page Num
  edit change p = record p { form = change p.form }

  -- A click on a box asks for the opposite of what it shows.
  unfoldable pub handle : Event Num → Page Num → Page Num
  unfolding update_column remove_column check_drop submit format load_schema has
  handle (type_table t) = edit (λ f. record f { table = t; schema_loaded = false })
  handle (type_id t) = edit (λ f. record f { plan_id = t })
  handle (type_steps t) = edit (λ f. record f { canary_steps = t })
  handle (type_json t) = edit (λ f. record f { json = t })
  handle (type_p99 n) = edit (λ f. record f { slo_p99 = n })
  handle (type_error_rate n) = edit (λ f. record f { slo_error_rate = n })
  handle (type_parity n) = edit (λ f. record f { slo_parity = n })
  handle click_mode = edit (λ f. record f { mode = other_mode f.mode })
  handle click_format = format H
  handle click_add = edit (λ f. record f { columns = f.columns ++ empty_column ∷ [] })
  handle (change_column idx change) =
      edit (λ f. record f { columns = update_column 0 idx change f.columns })
  handle (click_remove idx) = edit (λ f.
      if ltb 1 (length f.columns) then record f { columns = remove_column 0 idx f.columns } else f)
  handle (click_drop name) = edit (λ f.
      if offers_drop name f
      then record f {
        drop_columns = check_drop name (not (has name f.drop_columns)) f.drop_columns;
      }
      else f)
  handle (click_introspect answer) = λ p. if p.form.loading_schema then p else load_schema answer p
  handle (click_submit now answer) =
      λ p. if p.form.submitting then p else submit H now p.form answer p
  handle (press_enter now answer) = λ p. submit H now p.captured answer p

  unfoldable pub handle_all : List (Event Num) → Page Num → Page Num
  unfolding handle
  handle_all [] p = p
  handle_all (e ∷ es) p = handle_all es (handle e p)
