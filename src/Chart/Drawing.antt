-- ===== src/Chart/Drawing.antt =====
-- `drawChart` of frontend/src/components/DisasterAvertedChart.tsx, as the calls that it makes on the canvas, and
-- what stands beside the canvas.
use migration_safety_engine.Types.Records.{ThrottleEvent}
use migration_safety_engine.Chart.Reals.{Reals}
use migration_safety_engine.Prelude.{
  List, Text, [], if◌then◌else◌, length, lit, map, ℕ, ◌++◌, ◌+◌, ◌-◌, ◌==◌, ◌∷◌,
}

-- A call on the context, or a property that is set.
pub data Command (Num : Type 0) : Type 0 where
  set_stroke_style set_fill_style set_font set_text_align : Text → Command Num
  set_line_width : Num → Command Num
  set_line_dash : List Num → Command Num
  scale : Num → Num → Command Num
  clear_rect fill_rect : Num → Num → Num → Num → Command Num
  begin_path stroke fill_path : Command Num
  move_to line_to : Num → Num → Command Num
  arc : Num → Num → Num → Num → Num → Command Num
  fill_text : Text → Num → Num → Command Num

abbrev pub concat {ℓ} : {A : Type ℓ} → List (List A) → List A
concat [] = []
concat (xs ∷ xss) = xs ++ concat xss

module _ (R : Reals) where
  open R use {Num, literal, num, add, sub, mul, div, pi, text_of}

  -- `padding`
  abbrev pub pad_top : Num
  pad_top = num 20

  abbrev pub pad_right : Num
  pad_right = num 20

  abbrev pub pad_bottom : Num
  pad_bottom = num 30

  abbrev pub pad_left : Num
  pad_left = num 50

  unfoldable pub chart_width : Num → Num
  chart_width width = sub (sub width pad_left) pad_right

  unfoldable pub chart_height : Num → Num
  chart_height height = sub (sub height pad_top) pad_bottom

  abbrev pub draw_line : Num → Num → Num → Num → List (Command Num)
  draw_line x1 y1 x2 y2 = begin_path ∷ move_to x1 y1 ∷ line_to x2 y2 ∷ stroke ∷ []

  -- the two loops over the grid lines
  unfoldable pub horizontal_line : Num → Num → ℕ → List (Command Num)
  unfolding chart_height
  horizontal_line width height i =
      let y = add pad_top (mul (div (chart_height height) (num 4)) (num i)) in
      draw_line pad_left y (sub width pad_right) y

  unfoldable pub vertical_line : Num → Num → ℕ → List (Command Num)
  unfolding chart_width
  vertical_line width height i =
      let x = add pad_left (mul (div (chart_width width) (num 6)) (num i)) in
      draw_line x pad_top x (sub height pad_bottom)

  unfoldable pub draw_grid : Num → Num → List (Command Num)
  unfolding horizontal_line vertical_line
  draw_grid width height =
      set_stroke_style (lit "rgba(255, 255, 255, 0.05)")
      ∷ set_line_width (num 1)
      ∷ (concat (map (horizontal_line width height) (0 ∷ 1 ∷ 2 ∷ 3 ∷ 4 ∷ []))
          ++ concat (map (vertical_line width height) (0 ∷ 1 ∷ 2 ∷ 3 ∷ 4 ∷ 5 ∷ 6 ∷ [])))

  -- the threshold line and its label
  unfoldable pub threshold_y : Num → Num
  unfolding chart_height
  threshold_y height = add pad_top (mul (chart_height height) (literal 2 1))

  unfoldable pub draw_threshold : Num → Num → List (Command Num)
  unfolding threshold_y
  draw_threshold width height =
      let y = threshold_y height in
      set_stroke_style (lit "rgba(248, 113, 113, 0.5)")
      ∷ set_line_dash (num 5 ∷ num 5 ∷ [])
      ∷ (draw_line pad_left y (sub width pad_right) y
          ++ (set_line_dash []
              ∷ set_fill_style (lit "rgba(248, 113, 113, 0.8)")
              ∷ set_font (lit "10px JetBrains Mono, monospace")
              ∷ set_text_align (lit "right")
              ∷ fill_text (lit "200ms Threshold") (sub width pad_right) (sub y (num 5))
              ∷ []))

  -- `points`, in hundredths
  abbrev pub points : List (ℕ × ℕ)
  points =
      (0, 50)
      ∷ (10, 45)
      ∷ (20, 40)
      ∷ (30, 35)
      ∷ (40, 30)
      ∷ (50, 25)
      ∷ (60, 20)
      ∷ (70, 15)
      ∷ (80, 10)
      ∷ (90, 5)
      ∷ (100, 0)
      ∷ []

  unfoldable pub draw_point : Num → Num → ℕ → ℕ × ℕ → Command Num
  unfolding chart_width chart_height
  draw_point width height i (px, py) =
      let x = add pad_left (mul (chart_width width) (literal px 2)) in
      let y = add pad_top (mul (chart_height height) (literal py 2)) in
      if i == 0 then move_to x y else line_to x y

  unfoldable pub draw_points_from : Num → Num → ℕ → List (ℕ × ℕ) → List (Command Num)
  unfolding draw_point
  draw_points_from width height i [] = []
  draw_points_from width height i (p ∷ ps) =
      draw_point width height i p ∷ draw_points_from width height (i + 1) ps

  unfoldable pub draw_latency : Num → Num → List (Command Num)
  unfolding draw_points_from
  draw_latency width height =
      set_stroke_style (lit "#818cf8")
      ∷ set_line_width (num 2)
      ∷ begin_path
      ∷ (draw_points_from width height 0 points ++ stroke ∷ [])

  -- the marker of the event `i` of `n`
  unfoldable pub marker_x : Num → ℕ → ℕ → Num
  unfolding chart_width
  marker_x width n i = add pad_left (mul (chart_width width) (div (num (i + 1)) (num (n + 1))))

  unfoldable pub marker_y : Num → Num
  unfolding chart_height
  marker_y height = add pad_top (mul (chart_height height) (literal 3 1))

  unfoldable pub draw_marker : Num → Num → ℕ → ℕ → List (Command Num)
  unfolding marker_x marker_y
  draw_marker width height n i =
      let x = marker_x width n i in
      let y = marker_y height in
      set_fill_style (lit "rgba(251, 191, 36, 0.8)")
      ∷ begin_path
      ∷ arc x y (num 6) (num 0) (mul pi (num 2))
      ∷ fill_path
      ∷ set_fill_style (lit "#09090b")
      ∷ fill_rect (sub x (num 2)) (sub y (num 3)) (num 2) (num 6)
      ∷ fill_rect (add x (num 1)) (sub y (num 3)) (num 2) (num 6)
      ∷ []

  unfoldable pub draw_markers_from : Num → Num → ℕ → ℕ → List ThrottleEvent → List (Command Num)
  unfolding draw_marker
  draw_markers_from width height n i [] = []
  draw_markers_from width height n i (e ∷ es) =
      draw_marker width height n i ++ draw_markers_from width height n (i + 1) es

  -- the labels of the axes
  unfoldable pub draw_y_label : Num → ℕ → Command Num
  unfolding chart_height
  draw_y_label height i =
      let y = add pad_top (mul (div (chart_height height) (num 4)) (num i)) in
      let value = sub (num 250) (mul (div (num 250) (num 4)) (num i)) in
      fill_text (text_of value ++ lit "ms") (sub pad_left (num 10)) (add y (num 3))

  abbrev pub time_labels : List Text
  time_labels =
      lit "12:00" ∷ lit "13:00" ∷ lit "14:00" ∷ lit "15:00" ∷ lit "16:00" ∷ lit "16:30" ∷ []

  unfoldable pub draw_time_labels : Num → Num → ℕ → List Text → List (Command Num)
  unfolding chart_width
  draw_time_labels width height i [] = []
  draw_time_labels width height i (label ∷ labels) =
      let x = add pad_left (mul (div (chart_width width) (num (length time_labels - 1))) (num i)) in
      fill_text label x (sub height (num 10)) ∷ draw_time_labels width height (i + 1) labels

  unfoldable pub draw_axes : Num → Num → List (Command Num)
  unfolding draw_y_label draw_time_labels
  draw_axes width height =
      set_fill_style (lit "rgba(255, 255, 255, 0.5)")
      ∷ set_font (lit "10px JetBrains Mono, monospace")
      ∷ set_text_align (lit "right")
      ∷ (map (draw_y_label height) (0 ∷ 1 ∷ 2 ∷ 3 ∷ 4 ∷ [])
          ++ (set_text_align (lit "center") ∷ draw_time_labels width height 0 time_labels))

  unfoldable pub draw_chart : Num → Num → List ThrottleEvent → List (Command Num)
  unfolding draw_grid draw_threshold draw_latency draw_markers_from draw_axes
  draw_chart width height events =
      draw_grid width height
      ++ (draw_threshold width height
          ++ (draw_latency width height
              ++ (draw_markers_from width height (length events) 0 events
                  ++ draw_axes width height)))

  -- `devicePixelRatio || 1`
  unfoldable pub pixel_ratio : Num → Num
  pixel_ratio dpr = if R.gt dpr (num 0) then dpr else num 1
