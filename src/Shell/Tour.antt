-- ===== src/Shell/Tour.antt =====
-- The steps of frontend/src/components/OnboardingWizard.tsx.
use migration_safety_engine.Prelude.{
  Bool, List, [], arith, false, if◌then◌else◌, ltb, not, suc, true, zero, ℕ, ◌&&◌, ◌+◌, ◌-◌, ◌<◌,
  ◌==◌, ◌∷◌, ◌≡◌, refl, Option, Text, length, lit, none, some,
}

-- A step, without its icon.
pub record TourStep : Type 0 where
  pub title : Text
  pub body : Text
  pub state_flow_names : Option (List Text)

-- STEPS
abbrev pub steps : List TourStep
steps =
    record {
      title = lit "Welcome to MSE";
      body =
          lit
            "Migration Safety Engine keeps your Postgres migrations safe with SLO-gated canaries, crash-resume backfill, and automatic parity verification.";
      state_flow_names = some (
          lit "Pending"
          ∷ lit "Expanding"
          ∷ lit "Backfilling"
          ∷ lit "Verifying"
          ∷ lit "Canary"
          ∷ lit "Cutover"
          ∷ lit "Contracting"
          ∷ lit "Done"
          ∷ []);
    }
    ∷ record {
      title = lit "Run a Demo";
      body =
          lit
            "Click \"Run Demo\" on the dashboard to see the full migration lifecycle: expand schema, backfill rows, canary at 1/5/25/100%, verify parity, and contract.";
      state_flow_names = none;
    }
    ∷ record {
      title = lit "Create a Plan";
      body =
          lit
            "Define your target table, add or drop columns, set SLO gates (p99 latency, error rate, parity threshold), and configure canary traffic steps.";
      state_flow_names = none;
    }
    ∷ record {
      title = lit "Monitor in Real Time";
      body =
          lit
            "Track backfill progress, canary health, and parity scores with live Prometheus charts. The engine auto-rolls back if any SLO is breached.";
      state_flow_names = none;
    }
    ∷ []

-- STEPS.length
abbrev pub step_count : ℕ
step_count = length steps

pub record Tour : Type 0 where
  pub step : ℕ
  -- whether `onComplete` has been called
  pub completed : Bool

abbrev pub opened_tour : Tour
opened_tour = record { step = 0; completed = false }

pub data Click : Type 0 where
  click_skip click_back click_next : Click
  click_dot : ℕ → Click

-- The button back is there after the first step, a dot for every step, and none of them after the end.
unfoldable pub click : Click → Tour → Tour
click click_skip t = record t { completed = true }
click click_back t = if ltb 0 t.step && not t.completed then record t { step = t.step - 1 } else t
click click_next t =
    if t.completed
    then t
    else if t.step == step_count - 1
    then record t { completed = true }
    else record t { step = t.step + 1 }
click (click_dot i) t = if ltb i step_count && not t.completed then record t { step = i } else t

unfoldable pub click_all : List Click → Tour → Tour
unfolding click
click_all [] t = t
click_all (c ∷ cs) t = click_all cs (click c t)

click_bound : (c : Click) (t : Tour) → t.step < step_count → (click c t).step < step_count
unfolding click
click_bound click_skip t h = h
click_bound click_back t h = ground arith
click_bound click_next t h = ground arith
click_bound (click_dot i) t h = ground arith

click_all_bound :
    (cs : List Click) (t : Tour) → t.step < step_count → (click_all cs t).step < step_count
unfolding click_all
click_all_bound [] t h = h
click_all_bound (c ∷ cs) t h = click_all_bound cs (click c t) (click_bound c t h)

-- The presses of the button next that are left.
abbrev pub nexts : ℕ → List Click
nexts zero = []
nexts (suc n) = click_next ∷ nexts n

next_moves :
    (t : Tour)
    → t.completed ≡ false
    → t.step + 1 < step_count
    → click click_next t ≡ record { step = t.step + 1; completed = false }
unfolding click
next_moves t idle h =
    let more : (t.step == step_count - 1) ≡ false = ground arith in rw (idle, more) refl

next_completes : (t : Tour) → t.step + 1 ≡ step_count → (click click_next t).completed ≡ true
unfolding click
next_completes t h = ground arith

nexts_complete :
    (n : ℕ) (t : Tour)
    → t.step + suc n ≡ step_count
    → t.completed ≡ false
    → (click_all (nexts (suc n)) t).completed ≡ true
unfolding click_all
nexts_complete zero t e idle = next_completes t e
nexts_complete (suc n) t e idle =
    rw (next_moves t idle (omega arith), click_all)
      (nexts_complete n (record { step = t.step + 1; completed = false }) (omega arith) refl)

-- After any clicks that have not ended the tour, the step is one that there is, and the button next ends
-- the tour after as many clicks as steps are left.
pub click_all-ends :
    (cs : List Click)
    → (click_all cs opened_tour).completed ≡ false
    → ((click_all cs opened_tour).step < step_count)
      × ((click_all
            (nexts (step_count - (click_all cs opened_tour).step))
            (click_all cs opened_tour)).completed
          ≡ true)
click_all-ends cs idle =
    let t = click_all cs opened_tour in
    let bound = click_all_bound cs opened_tour (omega arith) in
    let left : step_count - t.step ≡ suc (step_count - t.step - 1) = omega (arith, bound) in
    (bound, rw left (nexts_complete (step_count - t.step - 1) t (omega (arith, bound)) idle))
