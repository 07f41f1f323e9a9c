-- ===== src/Detail/Tables.antt =====
-- The tables of the schema and the section `Production Safety` of frontend/src/pages/MigrationDetail.tsx.
-- `Texts` has the texts of numbers that the language makes.
use migration_safety_engine.Detail.Flow.{pad_number}
use migration_safety_engine.Detail.View.{View}
use migration_safety_engine.Types.Records.{MigrationRecord, SchemaColumn}
use migration_safety_engine.Prelude.{
  Bool, List, Option, Text, [], drop, false, if◌then◌else◌, is_empty, length, lit, ltb, map, none,
  or_else, some, take, true, ℕ, ◌++◌, ◌+◌, ◌-◌, ◌==◌, ◌∷◌,
}

pub record Texts (Num : Type 0) : Type 0 where
  -- `${n}` and `n.toFixed(places)`
  pub text_of : Num → Text
  pub fixed : ℕ → Num → Text

-- `s.length > n ? s.slice(0, n) + '...' : s`
unfoldable pub shorten : ℕ → Text → Text
shorten n s = if ltb n (length s) then take n s ++ lit "..." else s

-- `xs.slice(-n)` for a positive n
abbrev pub last_of {ℓ} : {A : Type ℓ} → ℕ → List A → List A
last_of n xs = drop (length xs - n) xs

-- A row of one of the two tables: its column, and whether it has the mark `_dropped`.
pub record SchemaRow : Type 0 where
  pub column : SchemaColumn
  pub is_dropped : Bool

pub record SchemaCells : Type 0 where
  pub number : Text
  pub name : Text
  pub type : Text
  pub nullable : Text
  pub default : Text
  pub status : Text

-- `[...schema, ...record.plan.drop_columns.map(...)]`
abbrev pub present_row : SchemaColumn → SchemaRow
present_row c = record { column = c; is_dropped = false }

abbrev pub dropped_row : Text → SchemaRow
dropped_row name = record {
  column = record { name = name; type = lit "text"; nullable = true; default = none };
  is_dropped = true;
}

unfoldable pub before_rows : List SchemaColumn → List Text → List SchemaRow
before_rows schema drop_columns = map present_row schema ++ map dropped_row drop_columns

-- `col.default ? ... : '—'`
unfoldable pub default_text : ℕ → Option Text → Text
unfolding shorten
default_text n none = lit "—"
default_text n (some []) = lit "—"
default_text n (some (c ∷ s)) = shorten n (c ∷ s)

-- A row's cells: `limit` is the length from which a default is cut.
unfoldable pub schema_cells : ℕ → ℕ → SchemaRow → SchemaCells
unfolding default_text
schema_cells limit i r = record {
  number = pad_number (i + 1);
  name = r.column.name;
  type = r.column.type;
  nullable = if r.column.nullable then lit "YES" else lit "NO";
  default = default_text limit r.column.default;
  status = if r.is_dropped then lit "DROPPED" else lit "—";
}

unfoldable pub cells_from : ℕ → ℕ → List SchemaRow → List SchemaCells
unfolding schema_cells
cells_from limit i [] = []
cells_from limit i (r ∷ rs) = schema_cells limit i r ∷ cells_from limit (i + 1) rs

-- What the card `Schema After` holds.
pub data AfterCard : Type 0 where
  no_card loading_card empty_card : AfterCard
  table_card : List SchemaCells → AfterCard

module _ {Num : Type 0} where
  -- the columns to drop, if the record has a table and a plan that drops one
  unfoldable pub drops_shown : MigrationRecord Num → Option (List Text)
  drops_shown m = if is_empty (or_else m.table []) then none else elim m.plan [
    | none ↦ none
    | some p ↦ if length (or_else p.drop_columns []) == 0 then none else p.drop_columns
  ]

  -- the card `Schema Before`: the count in its header, and its rows
  unfoldable pub before_card : View Num → MigrationRecord Num → Option (ℕ × List SchemaCells)
  unfolding drops_shown before_rows cells_from
  before_card v m = elim (drops_shown m) [
    | none ↦ none
    | some drops ↦
        some (length v.schema + length drops, cells_from 30 0 (before_rows v.schema drops))
  ]

  -- the card `Schema After`
  unfoldable pub after_card : View Num → MigrationRecord Num → AfterCard
  unfolding cells_from
  after_card v m =
      if is_empty (or_else m.table [])
      then no_card
      else if v.schema_loading
      then loading_card
      else if length v.schema == 0
      then empty_card
      else table_card (cells_from 40 0 (map present_row v.schema))
