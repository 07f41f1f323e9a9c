-- ===== src/NewPlan/Ticked.antt =====
-- How the boxes of the columns to drop in frontend/src/pages/NewPlan.tsx agree with the plan.
use migration_safety_engine.IdSet.{has}
use migration_safety_engine.Types.Records.{SchemaColumn}
use migration_safety_engine.NewPlan.Form.{Form, Host, build_plan, some_if_any}
use migration_safety_engine.NewPlan.View.{DropBox, drop_box, form_cards_of}
use migration_safety_engine.Prelude.{
  Bool, Bool-cases, List, Text, [], any, inl, inr, map, or_else, refl, text_eq, true, ℕ, ◌&&◌, ◌∷◌,
  ◌≡◌, ap, arith, length, ltb, text_eq_iff,
}

-- The box of the column is there and ticked.
unfoldable pub ticked : Text → List DropBox → Bool
ticked n = any (λ b. b.box_checked && text_eq b.label n)

-- the schema has a column of this name
unfoldable pub has_column : Text → List SchemaColumn → Bool
has_column n = any (λ c. text_eq c.name n)

ticked-drop_box :
    (n : Text) (drops : List Text) (cols : List SchemaColumn)
    → ticked n (map (drop_box drops) cols) ≡ (has_column n cols && has n drops)
unfolding ticked has_column drop_box
ticked-drop_box n drops [] = refl
ticked-drop_box n drops (c ∷ cols) = elim (Bool-cases (text_eq c.name n)) [
  | inl same ↦
      let e : c.name ≡ n = (text_eq_iff c.name n).0 same in
      let k : has c.name drops ≡ has n drops = ap (λ t. has t drops) e in
      ground (arith, ticked-drop_box n drops cols, k)
  | inr other ↦ ground (arith, ticked-drop_box n drops cols)
]

or_else-some_if_any : (l : List Text) → or_else (some_if_any l) [] ≡ l
or_else-some_if_any [] = refl
or_else-some_if_any (x ∷ l) = refl

has_column_length :
    (n : Text) (cols : List SchemaColumn) → has_column n cols ≡ true → ltb 0 (length cols) ≡ true
unfolding has_column
has_column_length n [] h = absurd (ground arith)
has_column_length n (c ∷ cols) h = ground arith

module _ {Num : Type 0} (H : Host Num) where
  -- While the schema is loaded, the plan of the form drops a column of the schema exactly if its box is
  -- ticked.
  pub ticked-build_plan :
      (now : ℕ) (f : Form Num) (n : Text)
      → f.schema_loaded ≡ true
      → has_column n f.schema_columns ≡ true
      → has n (or_else (build_plan H now f).drop_columns [])
        ≡ ticked n (or_else (form_cards_of f).drop_boxes [])
  unfolding build_plan form_cards_of
  ticked-build_plan now f n loaded known =
      rw
        (
          or_else-some_if_any f.drop_columns,
          loaded,
          has_column_length n f.schema_columns known,
          ticked-drop_box n f.drop_columns f.schema_columns,
          known,
        )
        refl
