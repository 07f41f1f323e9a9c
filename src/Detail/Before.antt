-- ===== src/Detail/Before.antt =====
-- Which columns the card `Schema Before` of frontend/src/pages/MigrationDetail.tsx lists.
use migration_safety_engine.Detail.View.{View}
use migration_safety_engine.Types.Records.{SchemaColumn, MigrationRecord}
use migration_safety_engine.Detail.Tables.{
  SchemaCells, SchemaRow, cells_from, schema_cells, before_card, before_rows, drops_shown,
}
use migration_safety_engine.Prelude.{
  List, Text, [], ap, arith, if◌then◌else◌, map, refl, text_eq, ℕ, ◌++◌, ◌+◌, ◌∷◌, ◌≡◌, Option,
  none, some, ◌∙◌, length,
}

abbrev pub count_text : Text → List Text → ℕ
count_text x [] = 0
count_text x (y ∷ ys) = (if text_eq y x then 1 else 0) + count_text x ys

count_text-append :
    (x : Text) (ys zs : List Text) → count_text x (ys ++ zs) ≡ count_text x ys + count_text x zs
count_text-append x [] zs = omega arith
count_text-append x (y ∷ ys) zs = omega (arith, count_text-append x ys zs)

-- the names in a table
abbrev pub names_of : List SchemaCells → List Text
names_of = map (λ c. c.name)

abbrev pub column_names : List SchemaColumn → List Text
column_names = map (λ c. c.name)

names_of-cells_from :
    (limit i : ℕ) (rs : List SchemaRow)
    → names_of (cells_from limit i rs) ≡ map (λ r. r.column.name) rs
unfolding cells_from schema_cells
names_of-cells_from limit i [] = refl
names_of-cells_from limit i (r ∷ rs) =
    ap (λ l. r.column.name ∷ l) (names_of-cells_from limit (i + 1) rs)

row_names :
    (schema : List SchemaColumn) (drops : List Text)
    → map (λ r. r.column.name) (before_rows schema drops) ≡ column_names schema ++ drops
unfolding before_rows
row_names [] [] = refl
row_names [] (d ∷ drops) = ap (λ l. d ∷ l) (row_names [] drops)
row_names (c ∷ schema) drops = ap (λ l. c.name ∷ l) (row_names schema drops)

-- How often a card lists a column, 0 where there is no card.
abbrev pub listed : Text → Option (ℕ × List SchemaCells) → ℕ
listed x none = 0
listed x (some (n, cells)) = count_text x (names_of cells)

module _ {Num : Type 0} where
  shown_card :
      (v : View Num) (m : MigrationRecord Num) (drops : List Text)
      → drops_shown m ≡ some drops
      → before_card v m
        ≡ some (length v.schema + length drops, cells_from 30 0 (before_rows v.schema drops))
  unfolding before_card
  shown_card v m drops h = rw (h, before_card) refl

  -- Where the card is shown, it lists a column as often as the schema and the columns to drop have it
  -- together: a column to drop that the schema still has is listed twice.
  pub listed-before_card :
      (x : Text) (v : View Num) (m : MigrationRecord Num) (drops : List Text)
      → drops_shown m ≡ some drops
      → listed x (before_card v m) ≡ count_text x (column_names v.schema) + count_text x drops
  listed-before_card x v m drops h =
      ap (listed x) (shown_card v m drops h)
      ∙ ap (count_text x)
          (names_of-cells_from 30 0 (before_rows v.schema drops) ∙ row_names v.schema drops)
      ∙ count_text-append x (column_names v.schema) drops
