-- ===== src/NewPlan/Races.antt =====
-- What goes wrong when something happens between a call of frontend/src/pages/NewPlan.tsx and its answer.
use mathlib.Core.List.{append_assoc}
use migration_safety_engine.Api.Sent.{plan_request, sent-submit_plan, visible-submit_plan}
use migration_safety_engine.Api.Calls.{fetch_schema, submit_plan}
use migration_safety_engine.Types.Records.{MigrationPlan, PlanSubmission, SchemaResponse}
use migration_safety_engine.NewPlan.Form.{Host, plan_of, Form}
use migration_safety_engine.NewPlan.Flight.{
  Flight, begin_load, begin_submit, end_load, end_submit, finish_load, finish_submit, send_load,
  start_load, start_shortcut, start_submit, move, local, send_submit, remove_at, submitted,
}
use migration_safety_engine.Api.Effects.{Answer, Result, World, ok, thrown, rejected}
use migration_safety_engine.Prelude.{
  Text, [], false, is_empty, refl, trim, true, ℕ, ◌∷◌, ◌≡◌, ap, ◌++◌, if◌then◌else◌, ◌∙◌,
}
use migration_safety_engine.NewPlan.Page.{
  handle, Page, load_finished, load_started, submit_started, type_table, error_text, submit_failed,
}

module _ {Num : Type 0} (H : Host Num) where
  -- the user types another name while the schema of a table is under way, and the answer comes
  abbrev pub retyped : Text → Answer SchemaResponse → Flight Num → Flight Num
  retyped name answer s =
      move H (end_load answer) (move H (local (type_table name)) (move H start_load s))

  load_sent :
      (s : Flight Num)
      → s.page.form.loading_schema ≡ false
      → is_empty (trim s.page.form.table) ≡ false
      → begin_load s ≡ send_load s
  unfolding begin_load
  load_sent s free named = rw free (rw named refl)

  load_answered :
      (table : Text) (r : Result SchemaResponse) (res : SchemaResponse) (p : Page Num)
      → r ≡ ok res
      → ((load_finished table r p).form.table ≡ p.form.table)
        × ((load_finished table r p).form.schema_loaded ≡ true)
        × ((load_finished table r p).form.schema_columns ≡ res.columns)
  unfolding load_finished
  load_answered table r res p e = rw e (refl, refl, refl)

  -- A table name that is typed while the schema of another table is under way is in the form when the
  -- answer comes, and the columns of the other table are then shown, and offered for the drop list, as
  -- those of the table in the form.
  pub retyped_lem :
      (name : Text) (answer : Answer SchemaResponse) (res : SchemaResponse) (s : Flight Num)
      → s.page.form.loading_schema ≡ false
      → is_empty (trim s.page.form.table) ≡ false
      → (fetch_schema (trim s.page.form.table) answer (send_load s).page.world).0 ≡ ok res
      → ((retyped name answer s).page.form.table ≡ name)
        × ((retyped name answer s).page.form.schema_loaded ≡ true)
        × ((retyped name answer s).page.form.schema_columns ≡ res.columns)
  unfolding move handle finish_load load_started
  retyped_lem name answer res s free named e =
      rw (load_sent s free named)
        (load_answered s.page.form.table _ res (handle H (type_table name) (send_load s).page) e)

  -- the shortcut while the plan of the button is under way, and the answer for that plan
  abbrev pub pressed_twice : ℕ → ℕ → Answer PlanSubmission → Flight Num → Flight Num
  pressed_twice now later answer s =
      move H (end_submit 0 answer) (move H (start_shortcut later) (move H (start_submit now) s))

  begun :
      (now : ℕ) (f : Form Num) (plan : MigrationPlan Num) (s : Flight Num)
      → plan_of H now f ≡ ok plan
      → begin_submit H now f s ≡ send_submit H plan s
  unfolding begin_submit
  begun now f plan s e = rw (e, begin_submit) refl

  clicked :
      (now : ℕ) (plan : MigrationPlan Num) (s : Flight Num)
      → s.page.form.submitting ≡ false
      → plan_of H now s.page.form ≡ ok plan
      → move H (start_submit now) s ≡ send_submit H plan s
  unfolding move
  clicked now plan s free e =
      ap (λ b. if b then s else begin_submit H now s.page.form s) free
      ∙ begun now s.page.form plan s e

  refused_first :
      (first second : MigrationPlan Num) (message : Text) (answer : Answer PlanSubmission)
      (s : Flight Num)
      → s.sending ≡ first ∷ second ∷ []
      → (submit_plan first answer s.page.world).0 ≡ thrown message
      → finish_submit 0 answer s
        ≡ record s { page = submit_failed message s.page; sending = second ∷ [] }
  unfolding finish_submit submitted
  refused_first first second message answer s e f =
      rw (e, finish_submit)
        (rw (f, submitted)
          (ap (λ l. record s { page = submit_failed message s.page; sending = remove_at 0 l }) e))

  -- the requests of two plans, one after the other
  sent_both :
      (first second : MigrationPlan Num) (s : Flight Num)
      → (send_submit H second (send_submit H first s)).page.world.sent
        ≡ s.page.world.sent
          ++ plan_request first s.page.world ∷ plan_request second s.page.world ∷ []
  unfolding submit_started
  sent_both first second s =
      let w : World Num = (submit_plan first (rejected []) s.page.world).1 in
      rw (sent-submit_plan second (rejected []) w) (
        rw
          (
            visible-submit_plan first (rejected []) s.page.world,
            sent-submit_plan first (rejected []) s.page.world,
          )
          (append_assoc s.page.world.sent (plan_request first s.page.world ∷ [])
            (plan_request second s.page.world ∷ [])))

  -- What the second press and the refusal of the first plan lead to.
  pub record Overlaps (first second : MigrationPlan Num) (message : Text) (s t : Flight Num)
      : Type 0 where
    pub both_sent :
        t.page.world.sent
        ≡ s.page.world.sent
          ++ plan_request first s.page.world ∷ plan_request second s.page.world ∷ []
    pub second_under_way : t.sending ≡ second ∷ []
    pub can_submit : t.page.form.submitting ≡ false
    pub same_location : t.page.location ≡ s.page.location
    pub shown_error : t.page.form.error ≡ error_text message

  -- Where the form and the first form have plans and no plan is under way: the shortcut sends the server
  -- the second plan while the first is under way, and when the server refuses the first, the page stays and
  -- shows its message, and the button can be used again, although the second plan is still under way.
  pub pressed_twice_lem :
      (now later : ℕ) (first second : MigrationPlan Num) (message : Text)
      (answer : Answer PlanSubmission) (s : Flight Num)
      → s.page.form.submitting ≡ false
      → s.sending ≡ []
      → plan_of H now s.page.form ≡ ok first
      → plan_of H later s.page.captured ≡ ok second
      → (submit_plan first answer (send_submit H second (send_submit H first s)).page.world).0
        ≡ thrown message
      → Overlaps first second message s (pressed_twice now later answer s)
  unfolding move submit_started submit_failed
  pressed_twice_lem now later first second message answer s free none_sent e f refusal =
      let t : Flight Num = send_submit H second (send_submit H first s) in
      rw (clicked now first s free e) (
        rw (begun later s.page.captured second (send_submit H first s) f) (
          rw
            (refused_first first second message answer t
              (ap (λ l. (l ++ first ∷ []) ++ second ∷ []) none_sent) refusal)
            (record {
              both_sent = sent_both first second s;
              second_under_way = refl;
              can_submit = refl;
              same_location = refl;
              shown_error = refl;
            })))
