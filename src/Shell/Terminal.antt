-- ===== src/Shell/Terminal.antt =====
-- The terminal of frontend/src/pages/LoginPage.tsx, which plays the output of a deployment.
use migration_safety_engine.Shell.TerminalLines.{
  Demo, TerminalLine, lines_of_demo, rollback_demo, success_demo,
}
use migration_safety_engine.Prelude.{
  List, Option, [], arith, if◌then◌else◌, leb, length, length-take, none, some, take, ℕ, ◌+◌, ◌<◌,
  ◌∷◌, Bool, ap, false, refl, true, ◌≡◌,
}

-- Two effects call `runDemo`: each has its interval, with the value of its variable `i` while it runs. The
-- intervals keep the lines of the rendering that started them, those of `running`. A rendering is on the
-- page before its effects run: until then they are due.
pub record Terminal : Type 0 where
  pub demo : Demo
  pub visible_lines : ℕ
  pub running : Demo
  pub effects_due : Bool
  pub first : Option ℕ
  pub second : Option ℕ

-- the first rendering
abbrev pub opened_terminal : Terminal
opened_terminal = record {
  demo = success_demo;
  visible_lines = 0;
  running = success_demo;
  effects_due = true;
  first = none;
  second = none;
}

-- both effects, after the cleanups of the former ones
unfoldable pub run_demo : Terminal → Terminal
run_demo t = record {
  demo = t.demo;
  visible_lines = 0;
  running = t.demo;
  effects_due = false;
  first = some 0;
  second = some 0;
}

abbrev pub other_demo : Demo → Demo
other_demo success_demo = rollback_demo
other_demo rollback_demo = success_demo

-- the effects, where they are due
unfoldable pub run_effects : Terminal → Terminal
unfolding run_demo
run_effects t = if t.effects_due then run_demo t else t

-- `toggleMode`: the other lines are rendered with the number of lines that is set; effects that are still
-- due run before the next rendering
unfoldable pub toggle_mode : Terminal → Terminal
unfolding run_effects
toggle_mode t = record (run_effects t) { demo = other_demo t.demo; effects_due = true }

-- the callback of an interval: its next value, and the number of lines that is set
unfoldable pub tick : ℕ → Option ℕ → ℕ → Option ℕ × ℕ
tick count none visible = (none, visible)
tick count (some i) visible = if leb count (i + 1) then (none, visible) else (some (i + 1), i + 1)

pub data Moment : Type 0 where
  first_tick second_tick click_toggle effects : Moment

unfoldable pub advance : Moment → Terminal → Terminal
unfolding tick run_effects toggle_mode
advance first_tick t =
    let (i, visible) = tick (length (lines_of_demo t.running)) t.first t.visible_lines in
    record t { first = i; visible_lines = visible }
advance second_tick t =
    let (i, visible) = tick (length (lines_of_demo t.running)) t.second t.visible_lines in
    record t { second = i; visible_lines = visible }
advance click_toggle t = toggle_mode t
advance effects t = run_effects t

unfoldable pub advance_all : List Moment → Terminal → Terminal
unfolding advance
advance_all [] t = t
advance_all (m ∷ ms) t = advance_all ms (advance m t)

-- `lines.slice(0, visibleLines)`
unfoldable pub visible_text : Terminal → List TerminalLine
visible_text t = take t.visible_lines (lines_of_demo t.demo)

-- The intervals have a line left to show, and are those of the demo on the page unless effects are due.
record HasMore (t : Terminal) : Type 0 where
  pub more : t.visible_lines < length (lines_of_demo t.running)
  pub same_demo : t.effects_due ≡ false → t.running ≡ t.demo

tick_bound :
    (count : ℕ) (i : Option ℕ) (visible : ℕ) → visible < count → (tick count i visible).1 < count
unfolding tick
tick_bound count none visible h = h
tick_bound count (some i) visible h = ground arith

some_line : (demo : Demo) → 0 < length (lines_of_demo demo)
some_line success_demo = omega arith
some_line rollback_demo = omega arith

either-HasMore : (b : Bool) (s t : Terminal) → HasMore s → HasMore t → HasMore (if b then s else t)
either-HasMore true s t h k = h
either-HasMore false s t h k = k

run_effects-HasMore : (t : Terminal) → HasMore t → HasMore (run_effects t)
unfolding run_effects run_demo
run_effects-HasMore t h =
    either-HasMore t.effects_due (run_demo t) t
      (record { more = some_line t.demo; same_demo = λ k. refl }) h

advance-HasMore : (m : Moment) (t : Terminal) → HasMore t → HasMore (advance m t)
unfolding advance toggle_mode
advance-HasMore first_tick t h = record {
  more = tick_bound (length (lines_of_demo t.running)) t.first t.visible_lines h.more;
  same_demo = h.same_demo;
}
advance-HasMore second_tick t h = record {
  more = tick_bound (length (lines_of_demo t.running)) t.second t.visible_lines h.more;
  same_demo = h.same_demo;
}
advance-HasMore click_toggle t h = record {
  more = (run_effects-HasMore t h).more;
  same_demo = λ k. absurd (ground (arith, k));
}
advance-HasMore effects t h = run_effects-HasMore t h

advance_all-HasMore : (ms : List Moment) (t : Terminal) → HasMore t → HasMore (advance_all ms t)
unfolding advance_all
advance_all-HasMore [] t h = h
advance_all-HasMore (m ∷ ms) t h = advance_all-HasMore ms (advance m t) (advance-HasMore m t h)

-- However long the terminal plays since it was opened, however often its demo is changed, and in whatever
-- order its timers fire, the last line of the demo is not shown in a rendering whose effects have run.
pub visible_text_lem :
    (ms : List Moment)
    → (advance_all ms opened_terminal).effects_due ≡ false
    → length (visible_text (advance_all ms opened_terminal))
      < length (lines_of_demo (advance_all ms opened_terminal).demo)
unfolding visible_text
visible_text_lem ms ran =
    let t = advance_all ms opened_terminal in
    let h =
      advance_all-HasMore ms opened_terminal
        (record { more = omega arith; same_demo = λ k. absurd (ground (arith, k)) }) in
    omega (
      arith,
      length-take t.visible_lines (lines_of_demo t.demo),
      h.more,
      ap (λ d. length (lines_of_demo d)) (h.same_demo ran),
    )
