-- ===== src/Chart/Panel.antt =====
-- The component of frontend/src/components/DisasterAvertedChart.tsx around its canvas.
use migration_safety_engine.Api.Uri.{decimal}
use migration_safety_engine.Panels.Health.{total_throttle_time}
use migration_safety_engine.Panels.Parity.{text_or}
use migration_safety_engine.Chart.Reals.{Reals}
use migration_safety_engine.Types.Records.{MigrationRecord, ThrottleEvent}
use migration_safety_engine.Chart.Drawing.{Command, clear_rect, draw_chart, pixel_ratio, scale}
use migration_safety_engine.Prelude.{
  List, Option, Text, [], if◌then◌else◌, length, lit, ltb, map, none, or_else, some, ◌++◌, ◌∷◌,
}
use mathlib.Core.Option

-- the canvas after the effect: its size, and the calls on its context
pub record Canvas (Num : Type 0) : Type 0 where
  pub width : Num
  pub height : Num
  pub commands : List (Command Num)

pub record DisasterPanel (Num : Type 0) : Type 0 where
  pub timeline_label : Text
  pub canvas : Option (Canvas Num)
  pub events : Option (Text × List (Text × Text × Text) × Text)

module _ {N : Type 0} where
  -- `throttleEvents`
  unfoldable pub throttle_events_of : MigrationRecord N → List ThrottleEvent
  throttle_events_of m = or_else m.throttle_events_list []

  unfoldable pub timeline : MigrationRecord N → Text
  timeline m =
      lit "Timeline: "
      ++ (text_or m.start_time (lit "12:00") ++ (lit " - " ++ text_or m.end_time (lit "16:30")))

-- an item of the list: its time, its action and its reason
unfoldable pub event_item : ThrottleEvent → Text × Text × Text
event_item e = (e.timestamp, lit "Paused " ++ e.duration, lit "— " ++ e.reason)

-- the list of the events, where there is one: heading, items and summary
unfoldable pub events_list : List ThrottleEvent → Option (Text × List (Text × Text × Text) × Text)
unfolding event_item total_throttle_time
events_list events =
    if ltb 0 (length events)
    then some (
      lit "ENGINE PROTECTED DATABASE FROM "
          ++ (decimal (length events) ++ lit " POTENTIAL OUTAGES"),
      map event_item events,
      lit "Total Throttle Time: " ++ total_throttle_time events,
    )
    else none

module _ (R : Reals) where
  open R use {Num, num, mul}

  -- the effect on `[throttleEvents]`, where the context exists: `rect` is the size of the element. The canvas
  -- keeps whole numbers only, as `whole`.
  unfoldable pub draw_canvas :
      (Num → Num) → (dpr : Num) → (rect : Num × Num) → List ThrottleEvent → Canvas Num
  unfolding pixel_ratio draw_chart
  draw_canvas whole dpr (w, h) events =
      let ratio = pixel_ratio R dpr in
      record {
        width = whole (mul w ratio);
        height = whole (mul h ratio);
        commands = scale ratio ratio ∷ clear_rect (num 0) (num 0) w h ∷ draw_chart R w h events;
      }

  -- the component, with the element if the browser has a context for it
  unfoldable pub disaster_panel :
      {N : Type 0} → (Num → Num) → Num → Option (Num × Num) → MigrationRecord N → DisasterPanel Num
  unfolding throttle_events_of timeline events_list draw_canvas
  disaster_panel whole dpr context m =
      let events = throttle_events_of m in
      record {
        timeline_label = timeline m;
        canvas = Option.map (λ rect. draw_canvas whole dpr rect events) context;
        events = events_list events;
      }
