-- ===== src/NewPlan/Invariant.antt =====
-- What the handlers of frontend/src/pages/NewPlan.tsx keep, whatever the user does.
use migration_safety_engine.Api.Calls.{fetch_schema, submit_plan}
use migration_safety_engine.NewPlan.Outcomes.{submit_no_plan, submit_with_plan}
use migration_safety_engine.Toast.Provider.{Provider}
use migration_safety_engine.NewPlan.Page.{
  Page, change_column, click_add, click_drop, click_format, click_introspect, click_remove,
  click_submit, load_finished, load_schema, load_started, offers_drop, press_enter, send_plan,
  submit_done, submit_failed, submit_started, submit, format, handle, handle_all, Event, opened,
}
use migration_safety_engine.Types.Records.{MigrationPlan, PlanSubmission, SchemaResponse}
use migration_safety_engine.NewPlan.Columns.{
  IsDistinct, check_drop-IsDistinct, length-remove_column, length-update_column,
}
use migration_safety_engine.NewPlan.Form.{Form, Host, empty_column, plan_of}
use migration_safety_engine.Api.Effects.{Answer, Result, World, ok, thrown, Result-cases}
use migration_safety_engine.Prelude.{
  Bool-cases, List, Text, [], arith, inl, inr, is_empty, length, length-append, ltb, refl, trim, ℕ,
  ◌<◌, ◌∷◌, ◌≡◌, Bool, false, if◌then◌else◌, true,
}

module _ {Num : Type 0} where
  pub record IsValid (f : Form Num) : Type 0 where
    pub has_column : 0 < length f.columns
    pub distinct_drops : IsDistinct f.drop_columns

  -- A handler that edits neither the columns nor the drop list.
  pub record Keeps (p q : Page Num) : Type 0 where
    pub same_columns : q.form.columns ≡ p.form.columns
    pub same_drops : q.form.drop_columns ≡ p.form.drop_columns
    pub same_captured : q.captured ≡ p.captured

  Keeps-IsValid : (p q : Page Num) → Keeps p q → IsValid p.form → IsValid q.form
  Keeps-IsValid p q k v = record {
    has_column = rw k.same_columns v.has_column;
    distinct_drops = rw k.same_drops v.distinct_drops;
  }

  either-IsValid :
      (b : Bool) (p q : Page Num)
      → IsValid p.form
      → IsValid q.form
      → IsValid (if b then p else q).form
  either-IsValid true p q v v' = v
  either-IsValid false p q v v' = v'

  load_finished-Keeps :
      (table : Text) (r : Result SchemaResponse) (p : Page Num) → Keeps p (load_finished table r p)
  unfolding load_finished
  load_finished-Keeps table (ok res) p = record {
    same_columns = refl;
    same_drops = refl;
    same_captured = refl;
  }
  load_finished-Keeps table (thrown message) p = record {
    same_columns = refl;
    same_drops = refl;
    same_captured = refl;
  }

  pub load_schema-Keeps :
      (answer : Answer SchemaResponse) (p : Page Num) → Keeps p (load_schema answer p)
  unfolding load_schema load_started
  load_schema-Keeps answer p = elim (Bool-cases (is_empty (trim p.form.table))) [
    | inl e ↦ rw e (record { same_columns = refl; same_drops = refl; same_captured = refl })
    | inr e ↦
        let (r, w) = fetch_schema (trim p.form.table) answer p.world in
        let k = load_finished-Keeps p.form.table r (record (load_started p) { world = w }) in
        rw e (record {
          same_columns = k.same_columns;
          same_drops = k.same_drops;
          same_captured = k.same_captured;
        })
  ]

  send_result-Keeps :
      (plan : MigrationPlan Num) (r : Result PlanSubmission) (p : Page Num)
      → Keeps p (elim r [
        | ok result ↦ submit_done plan result p
        | thrown message ↦ submit_failed message p
      ])
  unfolding submit_done submit_failed
  send_result-Keeps plan (ok result) p = record {
    same_columns = refl;
    same_drops = refl;
    same_captured = refl;
  }
  send_result-Keeps plan (thrown message) p = record {
    same_columns = refl;
    same_drops = refl;
    same_captured = refl;
  }

  send_plan-Keeps :
      (plan : MigrationPlan Num) (answer : Answer PlanSubmission) (p : Page Num)
      → Keeps p (send_plan plan answer p)
  unfolding send_plan
  send_plan-Keeps plan answer p =
      let (r, w) = submit_plan plan answer p.world in
      let k = send_result-Keeps plan r (record p { world = w }) in
      record {
        same_columns = k.same_columns;
        same_drops = k.same_drops;
        same_captured = k.same_captured;
      }

module _ {Num : Type 0} (H : Host Num) where
  pub submit-Keeps :
      (now : ℕ) (f : Form Num) (answer : Answer PlanSubmission) (p : Page Num)
      → Keeps p (submit H now f answer p)
  unfolding submit_started submit_failed
  submit-Keeps now f answer p = elim (Result-cases (plan_of H now f)) [
    | inl (m, e) ↦
        rw (submit_no_plan H now f answer p m e)
          (record { same_columns = refl; same_drops = refl; same_captured = refl })
    | inr (plan, e) ↦
        let k = send_plan-Keeps plan answer (submit_started p) in
        rw (submit_with_plan H now f answer p plan e) (record {
          same_columns = k.same_columns;
          same_drops = k.same_drops;
          same_captured = k.same_captured;
        })
  ]

  pub format-Keeps : (p : Page Num) → Keeps p (format H p)
  unfolding format
  format-Keeps p = elim (Result-cases (H.format_json p.form.json)) [
    | inl (m, e) ↦
        rw (e, format) (record { same_columns = refl; same_drops = refl; same_captured = refl })
    | inr (t, e) ↦
        rw (e, format) (record { same_columns = refl; same_drops = refl; same_captured = refl })
  ]

  click_remove-IsValid :
      (idx : ℕ) (p : Page Num) → IsValid p.form → IsValid (handle H (click_remove idx) p).form
  unfolding handle
  click_remove-IsValid idx p v = elim (Bool-cases (ltb 1 (length p.form.columns))) [
    | inl e ↦ rw e (record {
      has_column = ground (arith, length-remove_column 0 idx p.form.columns);
      distinct_drops = v.distinct_drops;
    })
    | inr e ↦ rw e v
  ]

  click_drop-IsValid :
      (name : Text) (p : Page Num) → IsValid p.form → IsValid (handle H (click_drop name) p).form
  unfolding handle
  click_drop-IsValid name p v = elim (Bool-cases (offers_drop name p.form)) [
    | inl e ↦ rw e (record {
      has_column = v.has_column;
      distinct_drops = check_drop-IsDistinct name p.form.drop_columns v.distinct_drops;
    })
    | inr e ↦ rw e v
  ]

  handle-IsValid : (e : Event Num) (p : Page Num) → IsValid p.form → IsValid (handle H e p).form
  unfolding handle
  handle-IsValid click_format p v = Keeps-IsValid p (format H p) (format-Keeps p) v
  handle-IsValid click_add p v = record {
    has_column = omega (arith, length-append p.form.columns (empty_column ∷ []));
    distinct_drops = v.distinct_drops;
  }
  handle-IsValid (change_column idx change) p v = record {
    has_column = rw (length-update_column 0 idx change p.form.columns) v.has_column;
    distinct_drops = v.distinct_drops;
  }
  handle-IsValid (click_remove idx) p v = click_remove-IsValid idx p v
  handle-IsValid (click_drop name) p v = click_drop-IsValid name p v
  handle-IsValid (click_introspect answer) p v =
      either-IsValid p.form.loading_schema p (load_schema answer p) v
        (Keeps-IsValid p (load_schema answer p) (load_schema-Keeps answer p) v)
  handle-IsValid (click_submit now answer) p v =
      either-IsValid p.form.submitting p (submit H now p.form answer p) v
        (Keeps-IsValid p (submit H now p.form answer p) (submit-Keeps now p.form answer p) v)
  handle-IsValid (press_enter now answer) p v =
      Keeps-IsValid p (submit H now p.captured answer p) (submit-Keeps now p.captured answer p) v
  handle-IsValid _ p v = record { has_column = v.has_column; distinct_drops = v.distinct_drops }

  handle_all-keeps_IsValid :
      (es : List (Event Num)) (p : Page Num) → IsValid p.form → IsValid (handle_all H es p).form
  unfolding handle_all
  handle_all-keeps_IsValid [] p v = v
  handle_all-keeps_IsValid (e ∷ es) p v =
      handle_all-keeps_IsValid es (handle H e p) (handle-IsValid e p v)

  -- After any events since the page was opened, the form has a column to fill in, and no column is in
  -- the drop list twice.
  pub handle_all-IsValid :
      (es : List (Event Num)) (w : World Num) (provider : Provider)
      → IsValid (handle_all H es (opened H w provider)).form
  handle_all-IsValid es w provider =
      handle_all-keeps_IsValid es (opened H w provider)
        (record { has_column = omega arith; distinct_drops = tt })
