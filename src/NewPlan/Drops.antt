-- ===== src/NewPlan/Drops.antt =====
-- The drop list of frontend/src/pages/NewPlan.tsx after the table has been changed.
use migration_safety_engine.Api.Calls.{submit_plan}
use migration_safety_engine.NewPlan.Page.{
  Page, click_drop, click_format, click_introspect, click_remove, click_submit, offers_drop,
  press_enter, submit_done, submit_failed, submit_started, type_table, format, handle, Event,
}
use migration_safety_engine.Types.Records.{MigrationPlan, PlanSubmission, SchemaResponse}
use migration_safety_engine.NewPlan.Form.{Form, Host, build_plan, plan_of, some_if_any}
use migration_safety_engine.NewPlan.Flight.{
  Flight, Move, begin_submit, end_load, end_submit, finish_load, finish_submit, move_all,
  start_load, start_shortcut, start_submit, submitted, move, local, awaits,
}
use migration_safety_engine.Api.Effects.{Answer, Result, Result-cases, ok, thrown}
use migration_safety_engine.Prelude.{
  All, Bool, Bool-cases, List, Option-cases, Text, [], ap, arith, false, get_elem?, if◌then◌else◌,
  inl, inr, length, ltb, none, refl, true, ℕ, ◌∙◌, ◌∷◌, ◌≡◌,
}
use migration_safety_engine.NewPlan.Invariant.{format-Keeps}

module _ {Num : Type 0} where
  -- A step that does not start a call for a schema.
  abbrev pub IsNoLoad : Move Num → Type 0
  IsNoLoad start_load = ⊥
  IsNoLoad _ = Unit

  -- No schema is on the screen, and the drop list is `drops`.
  pub record HasHidden (drops : List Text) (f : Form Num) : Type 0 where
    pub not_loaded : f.schema_loaded ≡ false
    pub same_drops : f.drop_columns ≡ drops

  either-HasHidden :
      (drops : List Text) (b : Bool) (s t : Flight Num)
      → HasHidden drops s.page.form
      → HasHidden drops t.page.form
      → HasHidden drops (if b then s else t).page.form
  either-HasHidden drops true s t h h' = h
  either-HasHidden drops false s t h h' = h'

  submitted-HasHidden :
      (drops : List Text) (plan : MigrationPlan Num) (r : Result PlanSubmission) (p : Page Num)
      → HasHidden drops p.form
      → HasHidden drops (submitted plan r p).form
  unfolding submitted submit_done submit_failed
  submitted-HasHidden drops plan (ok result) p h = record {
    not_loaded = h.not_loaded;
    same_drops = h.same_drops;
  }
  submitted-HasHidden drops plan (thrown message) p h = record {
    not_loaded = h.not_loaded;
    same_drops = h.same_drops;
  }

  finish_submit-HasHidden :
      (drops : List Text) (i : ℕ) (answer : Answer PlanSubmission) (s : Flight Num)
      → HasHidden drops s.page.form
      → HasHidden drops (finish_submit i answer s).page.form
  unfolding finish_submit
  finish_submit-HasHidden drops i answer s h = elim (Option-cases (get_elem? s.sending i)) [
    | inl e ↦ rw (e, finish_submit) h
    | inr (plan, e) ↦
        rw (e, finish_submit)
          (submitted-HasHidden drops plan (submit_plan plan answer s.page.world).0 s.page h)
  ]

  -- an answer for a schema that no call is under way for
  finish_load-none :
      (answer : Answer SchemaResponse) (s : Flight Num)
      → s.loading ≡ none
      → finish_load answer s ≡ s
  unfolding finish_load
  finish_load-none answer s e = rw (e, finish_load) (ap (λ o. record s { loading = o }) e)

  finish_submit-loading :
      (i : ℕ) (answer : Answer PlanSubmission) (s : Flight Num)
      → (finish_submit i answer s).loading ≡ s.loading
  unfolding finish_submit
  finish_submit-loading i answer s = elim (Option-cases (get_elem? s.sending i)) [
    | inl e ↦ rw (e, finish_submit) refl
    | inr (plan, e) ↦ rw (e, finish_submit) refl
  ]

  same_loading_if :
      (b : Bool) (s t : Flight Num)
      → t.loading ≡ s.loading
      → (if b then s else t).loading ≡ s.loading
  same_loading_if true s t h = refl
  same_loading_if false s t h = h

module _ {Num : Type 0} (H : Host Num) where
  format_loaded : (p : Page Num) → (format H p).form.schema_loaded ≡ p.form.schema_loaded
  unfolding format
  format_loaded p = elim (Result-cases (H.format_json p.form.json)) [
    | inl (m, e) ↦ rw (e, format) refl
    | inr (t, e) ↦ rw (e, format) refl
  ]

  handle-HasHidden :
      (drops : List Text) (e : Event Num) (p : Page Num)
      → awaits e ≡ false
      → HasHidden drops p.form
      → HasHidden drops (handle H e p).form
  unfolding handle
  handle-HasHidden drops (type_table t) p e h = record {
    not_loaded = refl;
    same_drops = h.same_drops;
  }
  handle-HasHidden drops click_format p e h = record {
    not_loaded = format_loaded p ∙ h.not_loaded;
    same_drops = (format-Keeps H p).same_drops ∙ h.same_drops;
  }
  handle-HasHidden drops (click_remove idx) p e h =
      elim (Bool-cases (ltb 1 (length p.form.columns))) [
        | inl many ↦ rw many (record { not_loaded = h.not_loaded; same_drops = h.same_drops })
        | inr one ↦ rw one h
      ]
  handle-HasHidden drops (click_drop name) p e h =
      let hidden : offers_drop name p.form ≡ false = ground (arith, h.not_loaded) in rw hidden h
  handle-HasHidden drops (click_introspect answer) p e h = absurd (ground arith)
  handle-HasHidden drops (click_submit now answer) p e h = absurd (ground arith)
  handle-HasHidden drops (press_enter now answer) p e h = absurd (ground arith)
  handle-HasHidden drops _ p e h = record { not_loaded = h.not_loaded; same_drops = h.same_drops }

  begin_submit-HasHidden :
      (drops : List Text) (now : ℕ) (f : Form Num) (s : Flight Num)
      → HasHidden drops s.page.form
      → HasHidden drops (begin_submit H now f s).page.form
  unfolding begin_submit submit_started submit_failed
  begin_submit-HasHidden drops now f s h = elim (Result-cases (plan_of H now f)) [
    | inl (m, e) ↦
        rw (e, begin_submit) (record { not_loaded = h.not_loaded; same_drops = h.same_drops })
    | inr (plan, e) ↦
        rw (e, begin_submit) (record { not_loaded = h.not_loaded; same_drops = h.same_drops })
  ]

  begin_submit-loading :
      (now : ℕ) (f : Form Num) (s : Flight Num) → (begin_submit H now f s).loading ≡ s.loading
  unfolding begin_submit
  begin_submit-loading now f s = elim (Result-cases (plan_of H now f)) [
    | inl (m, e) ↦ rw (e, begin_submit) refl
    | inr (plan, e) ↦ rw (e, begin_submit) refl
  ]

  move-HasHidden :
      (drops : List Text) (m : Move Num) (s : Flight Num)
      → IsNoLoad m
      → s.loading ≡ none
      → HasHidden drops s.page.form
      → HasHidden drops (move H m s).page.form
  unfolding move
  move-HasHidden drops (local e) s a k h = elim (Bool-cases (awaits e)) [
    | inl waits ↦ rw waits h
    | inr no_wait ↦ rw no_wait (handle-HasHidden drops e s.page no_wait h)
  ]
  move-HasHidden drops start_load s a k h = absurd a
  move-HasHidden drops (end_load answer) s a k h = rw (finish_load-none answer s k) h
  move-HasHidden drops (start_submit now) s a k h =
      either-HasHidden drops s.page.form.submitting s (begin_submit H now s.page.form s) h
        (begin_submit-HasHidden drops now s.page.form s h)
  move-HasHidden drops (start_shortcut now) s a k h =
      begin_submit-HasHidden drops now s.page.captured s h
  move-HasHidden drops (end_submit i answer) s a k h = finish_submit-HasHidden drops i answer s h

  move-loading :
      (m : Move Num) (s : Flight Num) → IsNoLoad m → s.loading ≡ none → (move H m s).loading ≡ none
  unfolding move
  move-loading (local e) s a k = same_loading_if (awaits e) s _ refl ∙ k
  move-loading start_load s a k = absurd a
  move-loading (end_load answer) s a k = ap (λ t. t.loading) (finish_load-none answer s k) ∙ k
  move-loading (start_submit now) s a k =
      same_loading_if s.page.form.submitting s _ (begin_submit-loading now s.page.form s) ∙ k
  move-loading (start_shortcut now) s a k = begin_submit-loading now s.page.captured s ∙ k
  move-loading (end_submit i answer) s a k = finish_submit-loading i answer s ∙ k

  move_all-HasHidden :
      (drops : List Text) (ms : List (Move Num)) (s : Flight Num)
      → All IsNoLoad ms
      → s.loading ≡ none
      → HasHidden drops s.page.form
      → HasHidden drops (move_all H ms s).page.form
  unfolding move_all
  move_all-HasHidden drops [] s a k h = h
  move_all-HasHidden drops (m ∷ ms) s a k h =
      move_all-HasHidden drops ms (move H m s) a.1 (move-loading m s a.0 k)
        (move-HasHidden drops m s a.0 k h)

  -- Once the user has typed a table name while no call for a schema is under way, the plan drops the columns
  -- that were chosen before, for whatever table, and no box is offered to take them out, until a call for
  -- a schema is started; plans may be submitted, and their answers may come, in any order.
  pub type_table-drops :
      (t : Text) (ms : List (Move Num)) (s : Flight Num) (now : ℕ) (name : Text)
      → s.loading ≡ none
      → All IsNoLoad ms
      → ((build_plan H now (move_all H (local (type_table t) ∷ ms) s).page.form).drop_columns
          ≡ (build_plan H now s.page.form).drop_columns)
        × (offers_drop name (move_all H (local (type_table t) ∷ ms) s).page.form ≡ false)
  unfolding build_plan move handle move_all
  type_table-drops t ms s now name k a =
      let typed : Flight Num = move H (local (type_table t)) s in
      let h =
        move_all-HasHidden s.page.form.drop_columns ms typed a k
          (record { not_loaded = refl; same_drops = refl }) in
      (ap some_if_any h.same_drops, ground (arith, h.not_loaded))
