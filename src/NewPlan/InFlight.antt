-- ===== src/NewPlan/InFlight.antt =====
-- What holds while calls of frontend/src/pages/NewPlan.tsx are under way.
use migration_safety_engine.Api.Calls.{fetch_schema, submit_plan}
use migration_safety_engine.Toast.Provider.{Provider}
use migration_safety_engine.Types.Records.{PlanSubmission, SchemaResponse, MigrationPlan}
use migration_safety_engine.NewPlan.Form.{Form, Host, plan_of}
use migration_safety_engine.NewPlan.Flight.{
  Flight, begin_load, begin_submit, finish_load, finish_submit, awaits, move, local, Move, end_load,
  end_submit, move_all, opened_flight, remove_at, start_load, start_shortcut, start_submit,
  submitted, no_table, send_load,
}
use migration_safety_engine.Api.Effects.{Answer, Result-cases, Result, World, ok, thrown}
use migration_safety_engine.Prelude.{
  Bool, Bool-cases, Option, arith, false, if◌then◌else◌, inl, inr, length, ltb, none, refl, some,
  true, ℕ, ◌∙◌, ◌≡◌, All, List, Option-cases, Text, [], get_elem?, is_empty, length-append, suc,
  trim, zero, ◌+◌, ◌∷◌,
}
use migration_safety_engine.NewPlan.Page.{
  Event, handle, Page, click_drop, click_format, click_introspect, click_remove, click_submit,
  load_started, offers_drop, press_enter, submit_failed, submit_started, format, load_finished,
  submit_done,
}

abbrev has_some {ℓ} : {A : Type ℓ} → Option A → Bool
has_some none = false
has_some (some a) = true

module _ {Num : Type 0} where
  -- A step that leaves the two flags of the page as they are.
  record KeepsFlags (p q : Page Num) : Type 0 where
    pub same_loading : q.form.loading_schema ≡ p.form.loading_schema
    pub same_submitting : q.form.submitting ≡ p.form.submitting

  either-KeepsFlags :
      (b : Bool) (p q r : Page Num)
      → KeepsFlags p q
      → KeepsFlags p r
      → KeepsFlags p (if b then q else r)
  either-KeepsFlags true p q r h k = h
  either-KeepsFlags false p q r h k = k

  either-form-KeepsFlags :
      (b : Bool) (p : Page Num) (f g : Form Num)
      → KeepsFlags p (record p { form = f })
      → KeepsFlags p (record p { form = g })
      → KeepsFlags p (record p { form = if b then f else g })
  either-form-KeepsFlags true p f g h k = h
  either-form-KeepsFlags false p f g h k = k

  same_flags : (p : Page Num) → KeepsFlags p p
  same_flags p = record { same_loading = refl; same_submitting = refl }

module _ {Num : Type 0} (H : Host Num) where
  format-KeepsFlags : (p : Page Num) → KeepsFlags p (format H p)
  unfolding format
  format-KeepsFlags p = elim (Result-cases (H.format_json p.form.json)) [
    | inl (m, e) ↦ rw (e, format) (record { same_loading = refl; same_submitting = refl })
    | inr (t, e) ↦ rw (e, format) (record { same_loading = refl; same_submitting = refl })
  ]

  handle-KeepsFlags :
      (e : Event Num) (p : Page Num) → awaits e ≡ false → KeepsFlags p (handle H e p)
  unfolding handle
  handle-KeepsFlags click_format p h = format-KeepsFlags p
  handle-KeepsFlags (click_remove idx) p h =
      either-form-KeepsFlags (ltb 1 (length p.form.columns)) p _ p.form
        (record { same_loading = refl; same_submitting = refl }) (same_flags p)
  handle-KeepsFlags (click_drop name) p h =
      either-form-KeepsFlags (offers_drop name p.form) p _ p.form
        (record { same_loading = refl; same_submitting = refl }) (same_flags p)
  handle-KeepsFlags (click_introspect answer) p h = ground (arith, h)
  handle-KeepsFlags (click_submit now answer) p h = ground (arith, h)
  handle-KeepsFlags (press_enter now answer) p h = ground (arith, h)
  handle-KeepsFlags _ p h = record { same_loading = refl; same_submitting = refl }

  -- the plan of a call that the button starts is one of at most one
  pub record InStep (s : Flight Num) : Type 0 where
    pub loads : s.page.form.loading_schema ≡ has_some s.loading
    pub sends : length s.sending ≡ (if s.page.form.submitting then 1 else 0)

  local-InStep : (e : Event Num) (s : Flight Num) → InStep s → InStep (move H (local e) s)
  unfolding move
  local-InStep e s h = elim (Bool-cases (awaits e)) [
    | inl yes_awaits ↦ rw yes_awaits h
    | inr no_awaits ↦
        let k = handle-KeepsFlags e s.page no_awaits in
        rw no_awaits
          (record { loads = k.same_loading ∙ h.loads; sends = rw k.same_submitting h.sends })
  ]

  either-InStep : (b : Bool) (s t : Flight Num) → InStep s → InStep t → InStep (if b then s else t)
  either-InStep true s t h k = h
  either-InStep false s t h k = k

  guarded-InStep :
      (b : Bool) (s t : Flight Num)
      → InStep s
      → (b ≡ false → InStep t)
      → InStep (if b then s else t)
  guarded-InStep true s t h k = h
  guarded-InStep false s t h k = k refl

  begin_load-InStep : (s : Flight Num) → InStep s → InStep (begin_load s)
  unfolding begin_load load_started
  begin_load-InStep s h =
      either-InStep s.page.form.loading_schema s
        (if is_empty (trim s.page.form.table) then no_table s else send_load s) h
        (either-InStep (is_empty (trim s.page.form.table)) (no_table s) (send_load s)
          (record { loads = h.loads; sends = h.sends }) (record { loads = refl; sends = h.sends }))

  load_finished_flags :
      (table : Text) (r : Result SchemaResponse) (p : Page Num)
      → ((load_finished table r p).form.loading_schema ≡ false)
        × ((load_finished table r p).form.submitting ≡ p.form.submitting)
  unfolding load_finished
  load_finished_flags table (ok res) p = (refl, refl)
  load_finished_flags table (thrown message) p = (refl, refl)

  finish_load-InStep :
      (answer : Answer SchemaResponse) (s : Flight Num) → InStep s → InStep (finish_load answer s)
  unfolding finish_load
  finish_load-InStep answer s h = elim (Option-cases s.loading) [
    | inl e ↦ rw (e, finish_load) h
    | inr (table, e) ↦
        let r : Result SchemaResponse = (fetch_schema (trim table) answer s.page.world).0 in
        let k = load_finished_flags table r s.page in
        rw (e, finish_load) (record { loads = k.0; sends = rw k.1 h.sends })
  ]

  begin_submit-InStep :
      (now : ℕ) (f : Form Num) (s : Flight Num)
      → s.page.form.submitting ≡ false
      → InStep s
      → InStep (begin_submit H now f s)
  unfolding begin_submit submit_started submit_failed
  begin_submit-InStep now f s free h =
      let none_sent : length s.sending ≡ 0 = ground (arith, h.sends, free) in
      elim (Result-cases (plan_of H now f)) [
        | inl (m, e) ↦ rw (e, begin_submit) (record { loads = h.loads; sends = none_sent })
        | inr (plan, e) ↦
            rw (e, begin_submit)
              (record {
                loads = h.loads;
                sends = omega (arith, none_sent, length-append s.sending (plan ∷ []));
              })
      ]

  pub submitted_flags :
      (plan : MigrationPlan Num) (r : Result PlanSubmission) (p : Page Num)
      → ((submitted plan r p).form.loading_schema ≡ p.form.loading_schema)
        × ((submitted plan r p).form.submitting ≡ false)
  unfolding submitted submit_done submit_failed
  submitted_flags plan (ok result) p = (refl, refl)
  submitted_flags plan (thrown message) p = (refl, refl)

  length-remove_at :
      (i : ℕ) (xs : List (MigrationPlan Num)) (x : MigrationPlan Num)
      → get_elem? xs i ≡ some x
      → length (remove_at i xs) + 1 ≡ length xs
  length-remove_at i [] x h = absurd (ground arith)
  length-remove_at zero (y ∷ xs) x h = omega arith
  length-remove_at (suc i) (y ∷ xs) x h = omega (arith, length-remove_at i xs x h)

  finish_submit-InStep :
      (i : ℕ) (answer : Answer PlanSubmission) (s : Flight Num)
      → InStep s
      → InStep (finish_submit i answer s)
  unfolding finish_submit
  finish_submit-InStep i answer s h = elim (Option-cases (get_elem? s.sending i)) [
    | inl e ↦ rw (e, finish_submit) h
    | inr (plan, e) ↦
        let r : Result PlanSubmission = (submit_plan plan answer s.page.world).0 in
        let k = submitted_flags plan r s.page in
        let none_left : length (remove_at i s.sending) ≡ 0 =
          ground (arith, length-remove_at i s.sending plan e, h.sends) in
        rw (e, finish_submit) (record { loads = k.0 ∙ h.loads; sends = rw k.1 none_left })
  ]

  abbrev pub IsNoShortcut : Move Num → Type 0
  IsNoShortcut (start_shortcut now) = ⊥
  IsNoShortcut _ = Unit

  move-InStep : (m : Move Num) (s : Flight Num) → IsNoShortcut m → InStep s → InStep (move H m s)
  unfolding move
  move-InStep (local e) s c h = local-InStep e s h
  move-InStep start_load s c h = begin_load-InStep s h
  move-InStep (end_load answer) s c h = finish_load-InStep answer s h
  move-InStep (start_submit now) s c h =
      guarded-InStep s.page.form.submitting s (begin_submit H now s.page.form s) h
        (λ free. begin_submit-InStep now s.page.form s free h)
  move-InStep (start_shortcut now) s c h = absurd c
  move-InStep (end_submit i answer) s c h = finish_submit-InStep i answer s h

  move_all-keeps_InStep :
      (ms : List (Move Num)) (s : Flight Num)
      → All IsNoShortcut ms
      → InStep s
      → InStep (move_all H ms s)
  unfolding move_all
  move_all-keeps_InStep [] s c h = h
  move_all-keeps_InStep (m ∷ ms) s c h =
      move_all-keeps_InStep ms (move H m s) c.1 (move-InStep m s c.0 h)

  -- Where the shortcut is not used, in whatever order the events and the answers come after the page was
  -- opened: the button of the schema is disabled exactly while a call for a schema is under way, and that of
  -- the plan exactly while one plan is under way; never are there two.
  pub move_all-InStep :
      (ms : List (Move Num)) (w : World Num) (provider : Provider)
      → All IsNoShortcut ms
      → InStep (move_all H ms (opened_flight H w provider))
  move_all-InStep ms w provider c =
      move_all-keeps_InStep ms (opened_flight H w provider) c
        (record { loads = refl; sends = refl })
