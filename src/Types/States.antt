-- ===== src/Types/States.antt =====
-- frontend/src/types/index.ts: the states of a migration and the tables keyed by them.
use migration_safety_engine.Prelude.{List, Text, [], lit, ◌∷◌}

pub data State : Type 0 where
  pending expanding backfilling verifying canary cutover contracting done rolling_back rolled_back :
      State

abbrev pub state_flow : List State
state_flow =
    pending ∷ expanding ∷ backfilling ∷ verifying ∷ canary ∷ cutover ∷ contracting ∷ done ∷ []

abbrev pub rollback_flow : List State
rollback_flow = pending ∷ rolling_back ∷ rolled_back ∷ []

-- the string that stands for the state
unfoldable pub state_text : State → Text
state_text pending = lit "Pending"
state_text expanding = lit "Expanding"
state_text backfilling = lit "Backfilling"
state_text verifying = lit "Verifying"
state_text canary = lit "Canary"
state_text cutover = lit "Cutover"
state_text contracting = lit "Contracting"
state_text done = lit "Done"
state_text rolling_back = lit "RollingBack"
state_text rolled_back = lit "RolledBack"

unfoldable pub state_color : State → Text
state_color pending = lit "#6b7280"
state_color expanding = lit "#3b82f6"
state_color backfilling = lit "#eab308"
state_color verifying = lit "#06b6d4"
state_color canary = lit "#f97316"
state_color cutover = lit "#8b5cf6"
state_color contracting = lit "#ef4444"
state_color done = lit "#22c55e"
state_color rolling_back = lit "#ec4899"
state_color rolled_back = lit "#6b7280"

unfoldable pub state_label : State → Text
state_label pending = lit "Pending"
state_label expanding = lit "Expanding"
state_label backfilling = lit "Backfilling"
state_label verifying = lit "Verifying"
state_label canary = lit "Canary"
state_label cutover = lit "Cutover"
state_label contracting = lit "Contracting"
state_label done = lit "Done"
state_label rolling_back = lit "Rolling Back"
state_label rolled_back = lit "Rolled Back"
