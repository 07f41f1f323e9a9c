-- ===== src/Chart/Tests.antt =====
-- The chart of frontend/src/components/DisasterAvertedChart.tsx and the figures of
-- frontend/src/pages/Dashboard.tsx on small inputs, and the property of the chart there.
use migration_safety_engine.Api.Uri.{decimal}
use migration_safety_engine.Chart.Spark.{spark_done, spark_failed}
use migration_safety_engine.Chart.Panel.{events_list}
use migration_safety_engine.Chart.Drawing.{
  chart_width, draw_chart, marker_x, draw_axes, draw_grid, draw_latency, draw_marker,
  draw_markers_from, draw_point, draw_points_from, draw_threshold, draw_time_labels, draw_y_label,
  horizontal_line, vertical_line,
}
use migration_safety_engine.Types.Records.{ThrottleEvent}
use migration_safety_engine.Chart.Reals.{IsOrdered, Reals, at_most}
use migration_safety_engine.Chart.Markers.{
  Ascending, circles-draw_chart-Ascending, circles, right_edge,
}
use migration_safety_engine.Prelude.{
  List, Text, [], if◌then◌else◌, length, lit, ltb, none, refl, ℕ, ◌*◌, ◌+◌, ◌-◌, ◌/◌, ◌==◌, ◌∷◌,
  ◌≡◌, not, true, ◌≤◌, ◌<◌,
}
use native.Mathlib.Omega.{arith}
use native.Mathlib.Nat.{
  mul-le-mul_left, le-div_iff_mul-le, div-mul-le_self, zero-div, mul-div-mul_right,
  mul-div_cancel_left,
}

lt_false : (m n : ℕ) → n ≤ m → not (ltb m n) ≡ true
lt_false m n h = ground arith

-- Thousandths, with results rounded down.
abbrev thousandths : Reals
thousandths = record {
  Num = ℕ;
  literal = λ digits places.
      if places == 0 then digits * 1000 else if places == 1 then digits * 100 else digits * 10;
  num = λ n. n * 1000;
  add = λ a b. a + b;
  sub = λ a b. a - b;
  mul = λ a b. a * b / 1000;
  div = λ a b. a * 1000 / b;
  gt = λ a b. ltb b a;
  round = λ a. (a + 500) / 1000 * 1000;
  pi = 3142;
  text_of = λ a. decimal (a / 1000);
}

div_le_lem : (a b n : ℕ) → 0 < n → a ≤ b → a * 1000 / (n * 1000) ≤ b * 1000 / (n * 1000)
div_le_lem a b n h k =
    rw
      (
        mul-div-mul_right {m = 1000} a n (omega arith),
        mul-div-mul_right {m = 1000} b n (omega arith),
      )
      ((le-div_iff_mul-le h).1 (omega (arith, div-mul-le_self a n, k)))

thousandths-IsOrdered : IsOrdered thousandths (λ n. Unit)
thousandths-IsOrdered = record {
  num_finite = λ n h. tt;
  num_le = λ m n h k. ground arith;
  add_le = λ a b c f g h k. ground arith;
  le-add = λ a b f g h. ground arith;
  mul_le = λ a b c f g h k l.
      (let e : b ≤ c = ground arith in
        lt_false (a * c / 1000) (a * b / 1000) (omega (arith, mul-le-mul_left a e)));
  mul_nonneg = λ a b f g h k. lt_false (a * b / 1000) 0 (omega arith);
  mul_finite = λ a b f g h k. tt;
  mul_one = λ a f. omega arith;
  div_finite = λ a n f h k. tt;
  div_le = λ a b n f g h k l.
      (let e : a ≤ b = ground arith in
        lt_false (b * 1000 / (n * 1000)) (a * 1000 / (n * 1000)) (div_le_lem a b n h e));
  zero_div = λ n h k. zero-div (n * 1000);
  div_self = λ n h k. mul-div_cancel_left 1000 (omega arith);
}

abbrev event : Text → Text → ThrottleEvent
event timestamp duration = record {
  timestamp = timestamp;
  reason = lit "replication lag";
  duration = duration;
  metric = [];
  threshold = [];
  current = [];
}

abbrev events : List ThrottleEvent
events = event (lit "12:05") (lit "5s") ∷ event (lit "13:40") (lit "30s") ∷ []

wide : at_most thousandths 0 (chart_width thousandths 670000) ≡ true
unfolding chart_width
wide = refl

circles_test :
    circles thousandths (draw_chart thousandths 670000 200000 events) ≡ 249800 ∷ 449600 ∷ []
unfolding draw_chart draw_markers_from draw_marker marker_x chart_width draw_grid horizontal_line
    vertical_line draw_threshold draw_latency draw_points_from draw_point draw_axes draw_y_label
    draw_time_labels
circles_test = refl

circles-draw_chart-Ascending_example :
    (length (circles thousandths (draw_chart thousandths 670000 200000 events)) ≡ 2)
    × Ascending thousandths 50000
        (right_edge thousandths 670000)
        (circles thousandths (draw_chart thousandths 670000 200000 events))
circles-draw_chart-Ascending_example =
    circles-draw_chart-Ascending thousandths (λ n. Unit) thousandths-IsOrdered 670000 tt wide 200000
      events (omega arith)

events_test :
    (events_list [] ≡ none)
    × (spark_done 3 ≡ 3 ∷ 2 ∷ 1 ∷ [])
    × (spark_failed 5 ≡ 3 ∷ 3 ∷ 3 ∷ 2 ∷ 1 ∷ [])
unfolding events_list spark_done spark_failed
events_test = (refl, refl, refl)
