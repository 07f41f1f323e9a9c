-- ===== src/NewPlan/Shortcut.antt =====
-- Which plan a submission of frontend/src/pages/NewPlan.tsx sends, by the button and by the shortcut.
use migration_safety_engine.Api.Sent.{plan_request, sent-submit_plan}
use migration_safety_engine.NewPlan.Outcomes.{submit_with_plan}
use migration_safety_engine.Api.Calls.{submit_plan}
use migration_safety_engine.NewPlan.Invariant.{format-Keeps, load_schema-Keeps, submit-Keeps}
use migration_safety_engine.Toast.Provider.{Provider}
use migration_safety_engine.NewPlan.Page.{
  Page, click_format, click_introspect, click_submit, press_enter, send_plan, submit_done,
  submit_failed, submit_started, load_schema, handle, handle_all, Event, submit, opened,
}
use migration_safety_engine.Types.Records.{MigrationPlan, PlanSubmission}
use migration_safety_engine.NewPlan.Form.{Form, Host, build_plan, first_form, form_mode, plan_of}
use migration_safety_engine.Api.Effects.{Answer, World, ok, Result-cases}
use migration_safety_engine.Prelude.{
  List, [], false, inl, inr, refl, ℕ, ◌++◌, ◌∙◌, ◌∷◌, ◌≡◌, Bool, if◌then◌else◌, true, ap,
}

module _ {Num : Type 0} where
  send_plan_world :
      (plan : MigrationPlan Num) (answer : Answer PlanSubmission) (p : Page Num)
      → (send_plan plan answer p).world ≡ (submit_plan plan answer p.world).1
  unfolding send_plan
  send_plan_world plan answer p = elim (Result-cases (submit_plan plan answer p.world).0) [
    | inl (m, e) ↦ rw (e, send_plan) (unfold submit_failed in refl)
    | inr (r, e) ↦ rw (e, send_plan) (unfold submit_done in refl)
  ]

  either_captured :
      (b : Bool) (p q : Page Num)
      → q.captured ≡ p.captured
      → (if b then p else q).captured ≡ p.captured
  either_captured true p q h = refl
  either_captured false p q h = h

module _ {Num : Type 0} (H : Host Num) where
  sent-submit :
      (now : ℕ) (f : Form Num) (answer : Answer PlanSubmission) (p : Page Num)
      (plan : MigrationPlan Num)
      → plan_of H now f ≡ ok plan
      → (submit H now f answer p).world.sent ≡ p.world.sent ++ plan_request plan p.world ∷ []
  unfolding submit_started
  sent-submit now f answer p plan h =
      rw (submit_with_plan H now f answer p plan h)
        (rw (send_plan_world plan answer (submit_started p)) (sent-submit_plan plan answer p.world))

  -- A click on the button, while the form is shown and no submission runs, sends one request: the plan
  -- of the fields as they are.
  pub sent-click_submit :
      (now : ℕ) (answer : Answer PlanSubmission) (p : Page Num)
      → p.form.mode ≡ form_mode
      → p.form.submitting ≡ false
      → (handle H (click_submit now answer) p).world.sent
        ≡ p.world.sent ++ plan_request (build_plan H now p.form) p.world ∷ []
  unfolding handle
  sent-click_submit now answer p shown idle = rw idle (
      sent-submit now p.form answer p (build_plan H now p.form)
        (unfold plan_of in rw (shown, plan_of) refl))

  captured-handle : (e : Event Num) (p : Page Num) → (handle H e p).captured ≡ p.captured
  unfolding handle
  captured-handle click_format p = (format-Keeps H p).same_captured
  captured-handle (click_introspect answer) p =
      either_captured p.form.loading_schema p (load_schema answer p)
        (load_schema-Keeps answer p).same_captured
  captured-handle (click_submit now answer) p =
      either_captured p.form.submitting p (submit H now p.form answer p)
        (submit-Keeps H now p.form answer p).same_captured
  captured-handle (press_enter now answer) p =
      (submit-Keeps H now p.captured answer p).same_captured
  captured-handle _ p = refl

  captured-handle_all :
      (es : List (Event Num)) (p : Page Num) → (handle_all H es p).captured ≡ p.captured
  unfolding handle_all
  captured-handle_all [] p = refl
  captured-handle_all (e ∷ es) p = captured-handle_all es (handle H e p) ∙ captured-handle e p

  abbrev pub after : List (Event Num) → World Num → Provider → Page Num
  after es w provider = handle_all H es (opened H w provider)

  -- Whatever the user has filled in, in either mode, the shortcut sends the plan of the form as it was
  -- when the page was opened.
  pub sent-press_enter :
      (es : List (Event Num)) (w : World Num) (provider : Provider) (now : ℕ)
      (answer : Answer PlanSubmission)
      → (handle H (press_enter now answer) (after es w provider)).world.sent
        ≡ (after es w provider).world.sent
          ++ plan_request (build_plan H now (first_form H)) (after es w provider).world ∷ []
  unfolding handle
  sent-press_enter es w provider now answer =
      ap (λ f. (submit H now f answer (after es w provider)).world.sent)
        (captured-handle_all es (opened H w provider))
      ∙ sent-submit now (first_form H) answer (after es w provider)
          (build_plan H now (first_form H)) (unfold plan_of in refl)
