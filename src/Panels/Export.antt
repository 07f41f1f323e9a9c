-- ===== src/Panels/Export.antt =====
-- What a reader of the file that frontend/src/components/CostEfficiencyPanel.tsx exports finds in it.
use migration_safety_engine.Types.Records.{MigrationRecord}
use migration_safety_engine.Panels.Cost.{
  CostFigures, cost_metrics, engine_process, join_row, roi_rows,
}
use migration_safety_engine.Prelude.{
  All, Lacks, List, Text, [], ap, get_elem?, join, lit, or_else, refl, split, split-Lacks,
  split-append, ℕ, ◌∙◌, ◌∷◌, ◌≡◌,
}

-- A text that was joined from parts without the separator is split into them again.
pub split-join :
    (c : ℕ) (part : Text) (parts : List Text)
    → All (Lacks c) (part ∷ parts)
    → split c (join c (part ∷ parts)) ≡ part ∷ parts
unfolding join
split-join c part [] h = split-Lacks c part h.0
split-join c part (next ∷ parts) h =
    split-append c part (join c (next ∷ parts)) h.0
    ∙ ap (λ l. part ∷ l) (split-join c next parts h.1)

module _ {Num : Type 0} (G : CostFigures Num) where
  open G use {fixed2}

  -- The cells of a line of the file, counted from 0.
  unfoldable pub cells_of_row : ℕ → MigrationRecord Num → List Text
  unfolding roi_rows join_row
  cells_of_row i m = split b',' (join_row (or_else (get_elem? (roi_rows G m) i) []))

  -- Where an amount in dollars is printed without a comma, the file's line of the risks has the three
  -- cells that were written, but that of the costs has five: the cost of the manual process is cut at its
  -- two commas, and the engine's stands in the fifth column.
  pub cells_of_row_lem :
      (m : MigrationRecord Num)
      → Lacks b',' (fixed2 (cost_metrics G m).downtime_cost)
      → (cells_of_row 3 m ≡ lit "Risk Level" ∷ lit "High" ∷ lit "Zero" ∷ [])
        × (cells_of_row 7 m
            ≡ lit "Cost (@ $100/hr)"
              ∷ lit "$4"
              ∷ lit "800-$8"
              ∷ lit "000"
              ∷ (b'$' ∷ fixed2 (cost_metrics G m).downtime_cost)
              ∷ [])
  unfolding cells_of_row roi_rows join_row engine_process join split
  cells_of_row_lem m h =
      (refl, rw (split-Lacks b',' (fixed2 (cost_metrics G m).downtime_cost) h) refl)
