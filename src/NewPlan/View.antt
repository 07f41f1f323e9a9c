-- ===== src/NewPlan/View.antt =====
-- What frontend/src/pages/NewPlan.tsx shows of its fields: the buttons, the message, the rows of the columns,
-- the schema and the boxes of the columns to drop. What never changes is left out.
use migration_safety_engine.NewPlan.Form.{Mode, form_mode, json_mode}
use migration_safety_engine.Prelude.{◌==◌, ◌&&◌, split, not, includes}
use migration_safety_engine.IdSet.{has}
use migration_safety_engine.NewPlan.Form.{Form}
use migration_safety_engine.Types.Records.{ColumnSpec, SchemaColumn}
use migration_safety_engine.Prelude.{
  Bool, List, Option, Text, [], if◌then◌else◌, is_empty, lit, none, some, ℕ, ◌++◌, ◌∷◌, false,
  length, true, map, ltb,
}

-- SQL_TYPES
abbrev pub sql_types : List Text
sql_types =
    lit "text"
    ∷ lit "integer"
    ∷ lit "bigint"
    ∷ lit "numeric"
    ∷ lit "boolean"
    ∷ lit "timestamp"
    ∷ lit "timestamptz"
    ∷ lit "uuid"
    ∷ lit "jsonb"
    ∷ lit "real"
    ∷ lit "double precision"
    ∷ lit "smallint"
    ∷ lit "date"
    ∷ lit "time"
    ∷ []

-- the inputs of a column; the spacing is in pixels
pub record ColumnRow : Type 0 where
  pub margin_bottom : ℕ
  pub padding_bottom : ℕ
  pub border_bottom : Text
  pub name_value : Text
  pub type_value : Text
  pub type_options : List Text
  pub expression_value : Text
  pub indexed_box : Bool
  pub nullable_box : Bool
  pub removable : Bool

-- the box of a column to drop
pub record DropBox : Type 0 where
  pub label : Text
  pub box_checked : Bool
  pub background : Text
  pub border : Text

pub record FormCards : Type 0 where
  pub introspect : Text × Bool
  -- the name and the type of each column of the schema, when it is loaded
  pub chips : Option (List (Text × Text))
  pub column_rows : List ColumnRow
  pub drop_boxes : Option (List DropBox)

-- the part under the message, by the mode
pub data PlanCards : Type 0 where
  form_cards : FormCards → PlanCards
  -- the number of lines, and the text
  json_card : ℕ → Text → PlanCards

pub record PlanView : Type 0 where
  pub description : Text
  pub mode_button : Text
  pub format_button : Bool
  pub submit_button : Text × Bool
  pub shortcut : Text
  pub banner : Option Text
  pub cards : PlanCards

abbrev is_form : Mode → Bool
is_form form_mode = true
is_form json_mode = false

-- `value || ''`
abbrev text_or_empty : Option Text → Text
text_or_empty none = []
text_or_empty (some s) = s

-- `indexed || false` and `nullable !== false`
abbrev flag_or : Bool → Option Bool → Bool
flag_or default_flag none = default_flag
flag_or default_flag (some b) = b

unfoldable pub column_row : Bool → Bool → ColumnSpec → ColumnRow
column_row is_last removable col = record {
  margin_bottom = if is_last then 0 else 12;
  padding_bottom = if is_last then 0 else 12;
  border_bottom = if is_last then lit "none" else lit "1px solid var(--border)";
  name_value = col.name;
  type_value = col.type;
  type_options = sql_types;
  expression_value = text_or_empty col.expression;
  indexed_box = flag_or false col.indexed;
  nullable_box = flag_or true col.nullable;
  removable = removable;
}

-- `columns.map((col, idx) => …)`; the last index is that with no column after it
unfoldable pub column_rows_of : Bool → List ColumnSpec → List ColumnRow
unfolding column_row
column_rows_of removable [] = []
column_rows_of removable (col ∷ columns) =
    column_row (length columns == 0) removable col ∷ column_rows_of removable columns

unfoldable pub drop_box : List Text → SchemaColumn → DropBox
drop_box drop_columns col =
    let chosen = has col.name drop_columns in
    record {
      label = col.name;
      box_checked = chosen;
      background = if chosen then lit "var(--red-dim)" else lit "rgba(255,255,255,0.03)";
      border =
          lit "1px solid " ++ (if chosen then lit "rgba(239,68,68,0.3)" else lit "var(--border)");
    }

module _ {Num : Type 0} where
  unfoldable pub form_cards_of : Form Num → FormCards
  unfolding column_rows_of drop_box
  form_cards_of f = record {
    introspect =
        (if f.loading_schema then lit "Loading..." else lit "Introspect", f.loading_schema);
    chips =
        if f.schema_loaded then some (map (λ col. (col.name, col.type)) f.schema_columns) else none;
    column_rows = column_rows_of (ltb 1 (length f.columns)) f.columns;
    drop_boxes =
        if f.schema_loaded && ltb 0 (length f.schema_columns)
        then some (map (drop_box f.drop_columns) f.schema_columns)
        else none;
  }

  unfoldable pub cards_of : Form Num → PlanCards
  unfolding form_cards_of
  cards_of f = elim f.mode [
    | form_mode ↦ form_cards (form_cards_of f)
    | json_mode ↦ json_card (length (split 0x0a f.json)) f.json
  ]

  -- `platform` is `navigator.platform`, which may be missing
  unfoldable pub plan_view : Option Text → Form Num → PlanView
  unfolding cards_of
  plan_view platform f =
      let form_shown = is_form f.mode in
      record {
        description =
            if form_shown
            then lit "Describe your schema change declaratively"
            else lit "Submit a raw JSON migration plan";
        mode_button = if form_shown then lit "Advanced Mode" else lit "Form Mode";
        format_button = not form_shown;
        submit_button =
            (if f.submitting then lit "Submitting..." else lit "Submit Plan", f.submitting);
        shortcut =
            (if includes (lit "Mac") (text_or_empty platform) then 0x2318 ∷ [] else lit "Ctrl+")
            ++ lit "Enter";
        banner = if is_empty f.error then none else some f.error;
        cards = cards_of f;
      }
