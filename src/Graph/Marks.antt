-- ===== src/Graph/Marks.antt =====
-- Which parts of the drawing of frontend/src/components/StateMachineGraph.tsx stand out.
use migration_safety_engine.Detail.View.{flow_index}
use migration_safety_engine.Types.States.{
  State, state_text, pending, expanding, backfilling, verifying, canary, cutover, contracting, done,
  rolling_back, rolled_back,
}
use migration_safety_engine.Graph.Drawing.{
  Line, draw_link, draw_node, draw_rings, find_node, index_in_flow, links_of, nodes_from, nodes,
}
use migration_safety_engine.Prelude.{
  Bool, List, [], false, filter, if◌then◌else◌, length, ltb, map, none, or_else, refl, some,
  text_eq, true, ℕ, ◌++◌, ◌+◌, ◌==◌, ◌∷◌, ◌≡◌,
}

abbrev flat : {A : Type 0} → List (List A) → List A
flat [] = []
flat (l ∷ ls) = l ++ flat ls

unfoldable pub wide_boxes : State → ℕ
unfolding draw_node nodes_from state_text text_eq
wide_boxes current = length (filter (λ n. (draw_node current n).stroke_width == 2) nodes)

unfoldable pub lines_of : State → List Line
unfolding draw_link links_of nodes_from
lines_of current = flat (map (draw_link current) (links_of nodes))

-- the states passed before a state of the flow
abbrev pub passed : State → ℕ
passed current = or_else (index_in_flow current) 0

-- Whether a state is one of the eight of the flow.
abbrev pub in_flow : State → Bool
in_flow current = elim (index_in_flow current) [ none ↦ false | some i ↦ true ]

-- Of the eight boxes exactly that of the current state has a wide border, with a ring around it; each
-- state passed before it has its link drawn a second time, flowing. While a migration rolls back, and once
-- it has, nothing of the drawing stands out.
pub marks_lem :
    (current : State)
    → (wide_boxes current ≡ (if in_flow current then 1 else 0))
      × (length (lines_of current) ≡ 7 + passed current)
      × (ltb 0 (length (draw_rings current)) ≡ in_flow current)
unfolding wide_boxes lines_of draw_node draw_link draw_rings find_node links_of nodes_from
    flow_index state_text text_eq
marks_lem pending = (refl, refl, refl)
marks_lem expanding = (refl, refl, refl)
marks_lem backfilling = (refl, refl, refl)
marks_lem verifying = (refl, refl, refl)
marks_lem canary = (refl, refl, refl)
marks_lem cutover = (refl, refl, refl)
marks_lem contracting = (refl, refl, refl)
marks_lem done = (refl, refl, refl)
marks_lem rolling_back = (refl, refl, refl)
marks_lem rolled_back = (refl, refl, refl)
