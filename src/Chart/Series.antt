-- ===== src/Chart/Series.antt =====
-- The coordinates of the charts of frontend/src/components/MetricsPanel.tsx.
use migration_safety_engine.Panels.Metrics.{state_bar_color}
use migration_safety_engine.Chart.Spark.{points_text}
use migration_safety_engine.Chart.Reals.{Reals}
use migration_safety_engine.Prelude.{
  List, Option, Text, [], if◌then◌else◌, length, map, none, some, take, ℕ, ◌+◌, ◌∷◌,
}

module _ (R : Reals) where
  open R use {Num, num, add, sub, mul, div, gt, pi, text_of}

  -- `circ - pct * circ` of `ParityGauge`, with its radius 38
  unfoldable pub gauge_dash : Num → Num × Num
  gauge_dash pct =
      let length_of_circle = mul (mul (num 2) pi) (num 38) in
      (length_of_circle, sub length_of_circle (mul pct length_of_circle))

  -- `CanaryChart`: `chartW` is 160 and `chartH` 66
  unfoldable pub step_x : ℕ → Num
  step_x i = add (num 30) (mul (div (num i) (num 4)) (num 160))

  unfoldable pub step_y : ℕ → Num
  step_y s = sub (add (num 10) (num 66)) (mul (div (num s) (num 100)) (num 66))

  unfoldable pub step_points : ℕ → List ℕ → List (Num × Num)
  unfolding step_x step_y
  step_points i [] = []
  step_points i (s ∷ ss) = (step_x i, step_y s) ∷ step_points (i + 1) ss

  -- both lines, from the steps and how many of them are active
  unfoldable pub canary_lines : List ℕ → List ℕ → Text × Text
  unfolding step_points points_text
  canary_lines marks active =
      (points_text R (step_points 0 marks), points_text R (step_points 0 active))

  -- the active dot, if a step has been found, and the grid
  unfoldable pub canary_dot : Option ℕ → ℕ → Option (Num × Num)
  unfolding step_x step_y
  canary_dot none current_step = none
  canary_dot (some i) current_step = some (step_x i, step_y current_step)

  unfoldable pub canary_grid : List (Num × Num × Num × Num)
  unfolding step_y
  canary_grid =
      map (λ v. (num 30, step_y v, sub (num 200) (num 10), step_y v)) (0 ∷ 25 ∷ 50 ∷ 75 ∷ 100 ∷ [])

  -- `TransitionChart`: a transition is a state with its count
  abbrev larger : Num → Num → Num
  larger a b = if gt a b then a else b

  unfoldable pub max_count : List (Text × Num) → Num
  max_count [] = num 1
  max_count ((state, count) ∷ ts) = larger count (max_count ts)

  -- `barW`
  unfoldable pub bar_w : ℕ → Num
  bar_w n =
      let share = sub (div (sub (num 200) (num 20)) (num n)) (num 4) in
      if gt (num 24) share then share else num 24

  pub record Bar : Type 0 where
    pub x : Num
    pub y : Num
    pub width : Num
    pub height : Num
    pub color : Text
    pub label_x : Num
    pub label : Text

  unfoldable pub transition_bar : ℕ → Num → ℕ → Text × Num → Bar
  unfolding bar_w
  transition_bar n top i (state, count) =
      let w = bar_w n in
      let left = add (num 10) (mul (num i) (add w (num 4))) in
      let bar_h = mul (div count top) (num 50) in
      record {
        x = left;
        y = add (sub (num 50) bar_h) (num 8);
        width = w;
        height = larger (num 2) bar_h;
        color = state_bar_color state;
        label_x = add left (div w (num 2));
        label = take 4 state;
      }

  unfoldable pub bars_from : ℕ → Num → ℕ → List (Text × Num) → List Bar
  unfolding transition_bar
  bars_from n top i [] = []
  bars_from n top i (t ∷ ts) = transition_bar n top i t ∷ bars_from n top (i + 1) ts

  -- the bars, where there is a transition
  unfoldable pub transition_bars : List (Text × Num) → List Bar
  unfolding bars_from max_count
  transition_bars ts = bars_from (length ts) (max_count ts) 0 ts

  -- the second rectangle of `BackfillChart`, where the share is positive
  unfoldable pub bar_glow : Num → Option Num
  bar_glow pct =
      if gt pct (num 0)
      then some (larger (num 0) (div (mul (sub (num 280) (num 20)) pct) (num 100)))
      else none
