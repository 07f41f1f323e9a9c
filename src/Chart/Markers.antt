-- ===== src/Chart/Markers.antt =====
-- Where the markers of the throttle events stand in the chart of
-- frontend/src/components/DisasterAvertedChart.tsx.
use mathlib.Core.Path.{subst}
use mathlib.Core.List.{append-nil}
use migration_safety_engine.Types.Records.{ThrottleEvent}
use migration_safety_engine.Chart.Reals.{IsOrdered, Reals, at_most, max_length}
use migration_safety_engine.Chart.Drawing.{
  Command, begin_path, chart_width, clear_rect, draw_axes, draw_chart, draw_grid, draw_latency,
  draw_marker, draw_markers_from, draw_point, draw_points_from, draw_threshold, draw_time_labels,
  draw_y_label, fill_path, fill_rect, fill_text, horizontal_line, line_to, marker_x, move_to,
  set_fill_style, set_font, set_line_dash, set_line_width, set_stroke_style, set_text_align,
  vertical_line, arc, scale, stroke,
}
use migration_safety_engine.Prelude.{
  List, [], ap, arith, length, refl, suc, true, zero, ℕ, ◌++◌, ◌+◌, ◌<◌, ◌∙◌, ◌∷◌, ◌≡◌, sym, ◌≤◌,
}

module _ (R : Reals) where
  open R use {Num, num, add, sub, mul, div}

  -- the abscissas of the circles that a drawing has, in the order in which they are drawn
  abbrev pub circles : List (Command Num) → List Num
  circles [] = []
  circles (arc x y r a b ∷ cs) = x ∷ circles cs
  circles (_ ∷ cs) = circles cs

  -- the right edge of the plot
  abbrev pub right_edge : Num → Num
  right_edge width = add (num 50) (chart_width R width)

  -- The numbers ascend, from `lo` at least to `hi` at most.
  abbrev pub Ascending : Num → Num → List Num → Type 0
  Ascending lo hi [] = at_most R lo hi ≡ true
  Ascending lo hi (x ∷ xs) = (at_most R lo x ≡ true) × Ascending x hi xs

  circles-append : (cs ds : List (Command Num)) → circles (cs ++ ds) ≡ circles cs ++ circles ds
  circles-append [] ds = refl
  circles-append (arc x y r a b ∷ cs) ds = ap (λ l. x ∷ l) (circles-append cs ds)
  circles-append (set_stroke_style t ∷ cs) ds = circles-append cs ds
  circles-append (set_fill_style t ∷ cs) ds = circles-append cs ds
  circles-append (set_font t ∷ cs) ds = circles-append cs ds
  circles-append (set_text_align t ∷ cs) ds = circles-append cs ds
  circles-append (set_line_width n ∷ cs) ds = circles-append cs ds
  circles-append (set_line_dash ns ∷ cs) ds = circles-append cs ds
  circles-append (scale x y ∷ cs) ds = circles-append cs ds
  circles-append (clear_rect x y w h ∷ cs) ds = circles-append cs ds
  circles-append (fill_rect x y w h ∷ cs) ds = circles-append cs ds
  circles-append (begin_path ∷ cs) ds = circles-append cs ds
  circles-append (stroke ∷ cs) ds = circles-append cs ds
  circles-append (fill_path ∷ cs) ds = circles-append cs ds
  circles-append (move_to x y ∷ cs) ds = circles-append cs ds
  circles-append (line_to x y ∷ cs) ds = circles-append cs ds
  circles-append (fill_text t x y ∷ cs) ds = circles-append cs ds

  -- the abscissas of the markers from the event `i` on, of `n`
  abbrev marker_xs : Num → ℕ → ℕ → ℕ → List Num
  marker_xs width n i zero = []
  marker_xs width n i (suc k) = marker_x R width n i ∷ marker_xs width n (i + 1) k

  circles-draw_markers :
      (width height : Num) (n i : ℕ) (es : List ThrottleEvent)
      → circles (draw_markers_from R width height n i es) ≡ marker_xs width n i (length es)
  unfolding draw_markers_from draw_marker
  circles-draw_markers width height n i [] = refl
  circles-draw_markers width height n i (e ∷ es) =
      ap (λ l. marker_x R width n i ∷ l) (circles-draw_markers width height n (i + 1) es)

  circles-before :
      (width height : Num) (cs : List (Command Num))
      → circles (
          draw_grid R width height
          ++ (draw_threshold R width height ++ (draw_latency R width height ++ cs)))
        ≡ circles cs
  unfolding draw_grid horizontal_line vertical_line draw_threshold draw_latency draw_points_from
      draw_point
  circles-before width height cs = refl

  circles-draw_axes : (width height : Num) → circles (draw_axes R width height) ≡ []
  unfolding draw_axes draw_y_label draw_time_labels
  circles-draw_axes width height = refl

  circles-draw_chart :
      (width height : Num) (es : List ThrottleEvent)
      → circles (draw_chart R width height es) ≡ marker_xs width (length es) 0 (length es)
  unfolding draw_chart
  circles-draw_chart width height es =
      let markers : List (Command Num) = draw_markers_from R width height (length es) 0 es in
      circles-before width height (markers ++ draw_axes R width height)
      ∙ circles-append markers (draw_axes R width height)
      ∙ ap (λ l. circles markers ++ l) (circles-draw_axes width height)
      ∙ append-nil (circles markers)
      ∙ circles-draw_markers width height (length es) 0 es

  -- the part of the plot that is to the left of the marker `i` of `n`
  abbrev share_of : ℕ → ℕ → Num
  share_of n i = div (num (i + 1)) (num (n + 1))

  module _ (IsFinite : Num → Type 0) (O : IsOrdered R IsFinite) where
    share-finite : (n i : ℕ) → i ≤ n → n < max_length → IsFinite (share_of n i)
    share-finite n i k b =
        O.div_finite _ (n + 1) (O.num_finite (i + 1) (omega arith)) (omega arith) (omega arith)

    share-le :
        (n i j : ℕ)
        → i ≤ j
        → j ≤ n
        → n < max_length
        → at_most R (share_of n i) (share_of n j) ≡ true
    share-le n i j k l b =
        O.div_le _ _ (n + 1) (O.num_finite (i + 1) (omega arith))
          (O.num_finite (j + 1) (omega arith)) (omega arith) (omega arith)
          (O.num_le _ _ (omega arith) (omega arith))

    zero_le-share : (n i : ℕ) → i ≤ n → n < max_length → at_most R (num 0) (share_of n i) ≡ true
    zero_le-share n i k b =
        subst (λ a. at_most R a (share_of n i) ≡ true)
          (O.zero_div (n + 1) (omega arith) (omega arith))
          (O.div_le (num 0) (num (i + 1)) (n + 1) (O.num_finite 0 (omega arith))
            (O.num_finite (i + 1) (omega arith)) (omega arith) (omega arith)
            (O.num_le 0 (i + 1) (omega arith) (omega arith)))

    share-le_one : (n i : ℕ) → i ≤ n → n < max_length → at_most R (share_of n i) (num 1) ≡ true
    share-le_one n i k b =
        subst (λ a. at_most R (share_of n i) a ≡ true)
          (O.div_self (n + 1) (omega arith) (omega arith)) (share-le n i n k (omega arith) b)

    module _ (width : Num) (finite : IsFinite (chart_width R width))
        (wide : at_most R (num 0) (chart_width R width) ≡ true) where
      part-finite :
          (n i : ℕ) → i ≤ n → n < max_length → IsFinite (mul (chart_width R width) (share_of n i))
      part-finite n i k b =
          O.mul_finite _ _ finite (share-finite n i k b) (zero_le-share n i k b)
            (share-le_one n i k b)

      marker_x-le :
          (n i : ℕ)
          → i < n
          → n < max_length
          → at_most R (marker_x R width n i) (marker_x R width n (i + 1)) ≡ true
      unfolding marker_x
      marker_x-le n i k b =
          O.add_le _ _ _ (O.num_finite 50 (omega arith)) (part-finite n i (omega arith) b)
            (part-finite n (i + 1) (omega arith) b)
            (O.mul_le _ _ _ finite (share-finite n i (omega arith) b)
              (share-finite n (i + 1) (omega arith) b) wide
              (share-le n i (i + 1) (omega arith) (omega arith) b))

      edge_le-marker_x :
          (n i : ℕ) → i ≤ n → n < max_length → at_most R (num 50) (marker_x R width n i) ≡ true
      unfolding marker_x
      edge_le-marker_x n i k b =
          O.le-add _ _ (O.num_finite 50 (omega arith)) (part-finite n i k b)
            (O.mul_nonneg _ _ finite (share-finite n i k b) wide (zero_le-share n i k b))

      marker_x-le_edge :
          (n i : ℕ)
          → i ≤ n
          → n < max_length
          → at_most R (marker_x R width n i) (right_edge width) ≡ true
      unfolding marker_x
      marker_x-le_edge n i k b =
          let part : at_most R (mul (chart_width R width) (share_of n i)) (chart_width R width)
              ≡ true =
            subst (λ a. at_most R (mul (chart_width R width) (share_of n i)) a ≡ true)
              (O.mul_one (chart_width R width) finite)
              (O.mul_le _ _ _ finite (share-finite n i k b) (O.num_finite 1 (omega arith)) wide
                (share-le_one n i k b)) in
          O.add_le _ _ _ (O.num_finite 50 (omega arith)) (part-finite n i k b) finite part

      marker_xs-Ascending :
          (n i k : ℕ) (lo : Num)
          → i + k ≡ n
          → n < max_length
          → at_most R lo (right_edge width) ≡ true
          → at_most R lo (marker_x R width n i) ≡ true
          → Ascending lo (right_edge width) (marker_xs width n i k)
      marker_xs-Ascending n i zero lo e b above next = above
      marker_xs-Ascending n i (suc k) lo e b above next = (
        next,
        marker_xs-Ascending n (i + 1) k (marker_x R width n i) (omega arith) b
            (marker_x-le_edge n i (omega arith) b) (marker_x-le n i (omega arith) b),
      )

      length-marker_xs : (n i k : ℕ) → length (marker_xs width n i k) ≡ k
      length-marker_xs n i zero = refl
      length-marker_xs n i (suc k) = ap suc (length-marker_xs n (i + 1) k)

      -- Where the plot has a finite width of at least 0, the drawing has one circle for each throttle event,
      -- and they stand from left to right between the left edge of the plot and the right one.
      pub circles-draw_chart-Ascending :
          (height : Num) (es : List ThrottleEvent)
          → length es < max_length
          → (length (circles (draw_chart R width height es)) ≡ length es)
            × Ascending (num 50) (right_edge width) (circles (draw_chart R width height es))
      circles-draw_chart-Ascending height es b =
          let e = circles-draw_chart width height es in
          (
            ap length e ∙ length-marker_xs (length es) 0 (length es),
            subst (Ascending (num 50) (right_edge width)) (sym e) (
                marker_xs-Ascending (length es) 0 (length es) (num 50) (omega arith) b
                  (O.le-add _ _ (O.num_finite 50 (omega arith)) finite wide)
                  (edge_le-marker_x (length es) 0 (omega arith) b)),
          )
