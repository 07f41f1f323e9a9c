-- ===== src/Dashboard/RowEvents.antt =====
-- The handlers of a row of the table of frontend/src/pages/Dashboard.tsx, with the bubbling of an event from the
-- part of the row where it happens. A disabled box gets no click.
use migration_safety_engine.Types.Records.{MigrationRecord}
use migration_safety_engine.Prelude.{List, Text, [], if◌then◌else◌, lit, text_eq, ◌++◌, ◌||◌, ◌∷◌}

pub data RowPart : Type 0 where
  row_itself box_cell box view_button : RowPart

pub data RowEvent : Type 0 where
  click_on : RowPart → RowEvent
  -- by `e.key`
  press_on : Text → RowPart → RowEvent

-- what the handlers do, in their order
pub data RowCall : Type 0 where
  stop_propagation prevent_default : RowCall
  navigate toggle : Text → RowCall

module _ {Num : Type 0} where
  unfoldable pub row_path : MigrationRecord Num → Text
  row_path m = lit "/migrations/" ++ m.migration_id

  unfoldable pub row_calls : MigrationRecord Num → RowEvent → List RowCall
  unfolding row_path
  row_calls m (click_on row_itself) = navigate (row_path m) ∷ []
  row_calls m (click_on box_cell) = stop_propagation ∷ []
  row_calls m (click_on box) =
      if m.terminal then toggle m.migration_id ∷ stop_propagation ∷ [] else []
  row_calls m (click_on view_button) = stop_propagation ∷ navigate (row_path m) ∷ []
  row_calls m (press_on key part) =
      if text_eq key (lit "Enter") || text_eq key (lit " ")
      then prevent_default ∷ navigate (row_path m) ∷ []
      else []
