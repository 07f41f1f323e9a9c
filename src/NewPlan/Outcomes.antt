-- ===== src/NewPlan/Outcomes.antt =====
-- How a submission of frontend/src/pages/NewPlan.tsx ends.
use migration_safety_engine.Toast.Provider.{toast, error, success}
use migration_safety_engine.Api.Calls.{submit_plan}
use migration_safety_engine.NewPlan.Page.{
  Page, error_text, send_plan, submit_done, submit_failed, submit_started, submit,
}
use migration_safety_engine.Types.Records.{MigrationPlan, PlanSubmission}
use migration_safety_engine.NewPlan.Form.{Form, Host, plan_of}
use migration_safety_engine.Api.Effects.{Answer, thrown, ok, World, Result-cases}
use migration_safety_engine.Prelude.{Text, [], false, inl, inr, lit, refl, ℕ, ◌++◌, ◌≡◌, ap}

module _ {Num : Type 0} (H : Host Num) where
  -- What a submission leaves behind when it fails, and when it succeeds.
  pub record Failed (message : Text) (p q : Page Num) : Type 0 where
    pub can_submit : q.form.submitting ≡ false
    pub shown_error : q.form.error ≡ error_text message
    pub notified : q.provider ≡ toast error (error_text message) p.provider
    pub stayed : q.location ≡ p.location

  pub record Succeeded (plan : MigrationPlan Num) (result : PlanSubmission) (p q : Page Num)
      : Type 0 where
    pub can_submit : q.form.submitting ≡ false
    pub no_error : q.form.error ≡ []
    pub notified :
        q.provider
        ≡ toast success (lit "Migration \"" ++ (plan.id ++ lit "\" submitted")) p.provider
    pub moved : q.location ≡ lit "/migrations/" ++ result.migration_id

  pub data Outcome (now : ℕ) (f : Form Num) (answer : Answer PlanSubmission) (p q : Page Num)
      : Type 0 where
    no_plan :
        (message : Text)
        → plan_of H now f ≡ thrown message
        → q.world ≡ p.world
        → Failed message p q
        → Outcome now f answer p q
    refused :
        (plan : MigrationPlan Num) (message : Text)
        → plan_of H now f ≡ ok plan
        → submit_plan plan answer p.world ≡ (thrown message, q.world)
        → Failed message p q
        → Outcome now f answer p q
    accepted :
        (plan : MigrationPlan Num) (result : PlanSubmission)
        → plan_of H now f ≡ ok plan
        → submit_plan plan answer p.world ≡ (ok result, q.world)
        → Succeeded plan result p q
        → Outcome now f answer p q

  pub submit_no_plan :
      (now : ℕ) (f : Form Num) (answer : Answer PlanSubmission) (p : Page Num) (message : Text)
      → plan_of H now f ≡ thrown message
      → submit H now f answer p ≡ submit_failed message (submit_started p)
  unfolding submit
  submit_no_plan now f answer p message h = rw (h, submit) refl

  pub submit_with_plan :
      (now : ℕ) (f : Form Num) (answer : Answer PlanSubmission) (p : Page Num)
      (plan : MigrationPlan Num)
      → plan_of H now f ≡ ok plan
      → submit H now f answer p ≡ send_plan plan answer (submit_started p)
  unfolding submit
  submit_with_plan now f answer p plan h = rw (h, submit) refl

  submit_failed-Failed :
      (message : Text) (p : Page Num) (w : World Num)
      → Failed message p (submit_failed message (record (submit_started p) { world = w }))
  unfolding submit_failed submit_started
  submit_failed-Failed message p w = record {
    can_submit = refl;
    shown_error = refl;
    notified = refl;
    stayed = refl;
  }

  submit_done-Succeeded :
      (plan : MigrationPlan Num) (result : PlanSubmission) (p : Page Num) (w : World Num)
      → Succeeded plan result p (submit_done plan result (record (submit_started p) { world = w }))
  unfolding submit_done submit_started
  submit_done-Succeeded plan result p w = record {
    can_submit = refl;
    no_error = refl;
    notified = refl;
    moved = refl;
  }

  send_plan-cases :
      (now : ℕ) (f : Form Num) (answer : Answer PlanSubmission) (p : Page Num)
      (plan : MigrationPlan Num)
      → plan_of H now f ≡ ok plan
      → Outcome now f answer p (send_plan plan answer (submit_started p))
  unfolding submit_started
  send_plan-cases now f answer p plan h = elim (Result-cases (submit_plan plan answer p.world).0) [
    | inl (m, e) ↦
        let sent : send_plan plan answer (submit_started p)
            ≡ submit_failed m
                (record (submit_started p) { world = (submit_plan plan answer p.world).1 }) =
          unfold send_plan in rw (e, send_plan) refl in
        rw sent (
          refused plan m h
            (unfold submit_failed in ap (λ r. (r, (submit_plan plan answer p.world).1)) e)
            (submit_failed-Failed m p (submit_plan plan answer p.world).1))
    | inr (r, e) ↦
        let sent : send_plan plan answer (submit_started p)
            ≡ submit_done plan r
                (record (submit_started p) { world = (submit_plan plan answer p.world).1 }) =
          unfold send_plan in rw (e, send_plan) refl in
        rw sent (
          accepted plan r h
            (unfold submit_done in ap (λ a. (a, (submit_plan plan answer p.world).1)) e)
            (submit_done-Succeeded plan r p (submit_plan plan answer p.world).1))
  ]

  -- A submission ends in one of three ways, and the form can be submitted again after each. If there is
  -- no plan, nothing is sent; if the server's answer is a failure, the plan was sent. In both cases the
  -- message is on the form and in one new notification, and the page stays. Otherwise the form shows no
  -- error, the one new notification names the plan, and the page is that of the new migration.
  pub submit-Outcome :
      (now : ℕ) (f : Form Num) (answer : Answer PlanSubmission) (p : Page Num)
      → Outcome now f answer p (submit H now f answer p)
  unfolding submit_started
  submit-Outcome now f answer p = elim (Result-cases (plan_of H now f)) [
    | inl (m, e) ↦ rw (submit_no_plan now f answer p m e) (
        no_plan m e (unfold submit_failed submit_started in refl)
          (submit_failed-Failed m p p.world))
    | inr (plan, e) ↦
        rw (submit_with_plan now f answer p plan e) (send_plan-cases now f answer p plan e)
  ]
