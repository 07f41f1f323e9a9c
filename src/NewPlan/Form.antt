-- ===== src/NewPlan/Form.antt =====
-- The fields of the component `NewPlan` (frontend/src/pages/NewPlan.tsx), the edits of its inputs, and
-- the plan that it builds. `Host` is what it takes from the platform: the number that a literal
-- `digits / 10 ^ places` denotes, and JSON, where a parsed text is taken for a plan as the code does.
use migration_safety_engine.Api.Uri.{decimal}
use migration_safety_engine.NewPlan.Steps.{parse_steps}
use migration_safety_engine.Api.Effects.{Result, ok}
use migration_safety_engine.Types.Records.{ColumnSpec, MigrationPlan, SchemaColumn}
use migration_safety_engine.Prelude.{
  Bool, List, Option, Text, [], false, filter, if◌then◌else◌, is_empty, lit, map, none, not, some,
  text_eq, trim, true, ℕ, ◌++◌, ◌+◌, ◌==◌, ◌∷◌,
}

pub data Mode : Type 0 where
  form_mode json_mode : Mode

pub record Host (Num : Type 0) : Type 0 where
  pub literal : (digits places : ℕ) → Num
  pub parse_json : Text → Result (MigrationPlan Num)
  pub print_json : MigrationPlan Num → Text
  -- `JSON.stringify(JSON.parse(text), null, 2)`
  pub format_json : Text → Result Text

pub record Form (Num : Type 0) : Type 0 where
  pub mode : Mode
  pub table : Text
  pub plan_id : Text
  pub columns : List ColumnSpec
  pub drop_columns : List Text
  pub schema_columns : List SchemaColumn
  pub schema_loaded : Bool
  pub slo_p99 : Num
  pub slo_error_rate : Num
  pub slo_parity : Num
  pub canary_steps : Text
  pub json : Text
  pub error : Text
  pub submitting : Bool
  pub loading_schema : Bool

abbrev pub empty_column : ColumnSpec
empty_column = record {
  name = [];
  type = lit "text";
  expression = some [];
  nullable = some true;
  indexed = some false;
}

-- a field of a column and its new value
pub data Change : Type 0 where
  name_to type_to expression_to : Text → Change
  nullable_to indexed_to : Bool → Change

abbrev pub apply_change : Change → ColumnSpec → ColumnSpec
apply_change (name_to v) c = record c { name = v }
apply_change (type_to v) c = record c { type = v }
apply_change (expression_to v) c = record c { expression = some v }
apply_change (nullable_to v) c = record c { nullable = some v }
apply_change (indexed_to v) c = record c { indexed = some v }

-- `prev.map((c, i) => i === idx ? { ...c, [field]: value } : c)`, from the index `i` on
unfoldable pub update_column : ℕ → ℕ → Change → List ColumnSpec → List ColumnSpec
update_column i idx change [] = []
update_column i idx change (c ∷ columns) =
    let rest = update_column (i + 1) idx change columns in
    if i == idx then apply_change change c ∷ rest else c ∷ rest

-- `prev.filter((_, i) => i !== idx)`, from the index `i` on
unfoldable pub remove_column : ℕ → ℕ → List ColumnSpec → List ColumnSpec
remove_column i idx [] = []
remove_column i idx (c ∷ columns) =
    let rest = remove_column (i + 1) idx columns in if i == idx then rest else c ∷ rest

-- the handler of a box of the drop list
unfoldable pub check_drop : Text → Bool → List Text → List Text
check_drop name checked prev =
    if checked then prev ++ name ∷ [] else filter (λ n. not (text_eq n name)) prev

-- `xs.length > 0 ? xs : undefined`
abbrev pub some_if_any {ℓ} : {A : Type ℓ} → List A → Option (List A)
some_if_any [] = none
some_if_any (x ∷ xs) = some (x ∷ xs)

unfoldable pub named_columns : List ColumnSpec → List ColumnSpec
named_columns = filter (λ c. not (is_empty (trim c.name)))

-- `planId || …`
abbrev pub id_or : Text → Text → Text
id_or [] d = d
id_or (c ∷ s) d = c ∷ s

module _ {Num : Type 0} (H : Host Num) where
  open H use {literal}

  abbrev pub natural : ℕ → Num
  natural n = literal n 0

  -- DEMO_PLAN of lib/constants.ts
  abbrev pub demo_plan : MigrationPlan Num
  demo_plan = record {
    id = lit "demo-run";
    version = natural 1;
    table = lit "catalog_product";
    strategy = lit "expand-contract";
    expand =
        lit "ALTER TABLE catalog_product ADD COLUMN IF NOT EXISTS shipping_class text"
        ∷ lit
            "CREATE INDEX CONCURRENTLY IF NOT EXISTS idx_cp_shipping ON catalog_product (shipping_class)"
        ∷ [];
    backfill = record {
      column = lit "shipping_class";
      batch_size = natural 5000;
      throttle_ms = natural 20;
      source_expr =
          lit
            "CASE WHEN weight < 1 THEN 'light' WHEN weight < 10 THEN 'standard' ELSE 'freight' END";
    };
    verify = record {
      mode = lit "shadow-read";
      parity_threshold = literal 999 3;
      sample_rate = literal 5 2;
    };
    canary = record { steps = map natural (1 ∷ 5 ∷ 25 ∷ 100 ∷ []); bake_seconds = natural 120 };
    slo = record {
      max_p99_latency_ms = natural 50;
      max_error_rate_pct = literal 1 1;
      min_parity = literal 999 3;
    };
    contract = lit "ALTER TABLE catalog_product DROP COLUMN IF EXISTS legacy_shipping" ∷ [];
    rollback =
        lit "DROP INDEX IF EXISTS idx_cp_shipping"
        ∷ lit "ALTER TABLE catalog_product DROP COLUMN IF EXISTS shipping_class"
        ∷ [];
    on_failure = lit "rollback";
    add_columns = none;
    drop_columns = none;
  }

  abbrev pub first_form : Form Num
  first_form = record {
    mode = form_mode;
    table = lit "catalog_product";
    plan_id = [];
    columns = empty_column ∷ [];
    drop_columns = [];
    schema_columns = [];
    schema_loaded = false;
    slo_p99 = natural 50;
    slo_error_rate = literal 1 1;
    slo_parity = literal 999 3;
    canary_steps = lit "1, 5, 25, 100";
    json = H.print_json demo_plan;
    error = [];
    submitting = false;
    loading_schema = false;
  }

  -- `buildPlan`; `now` is `Date.now()`
  unfoldable pub build_plan : ℕ → Form Num → MigrationPlan Num
  unfolding named_columns parse_steps
  build_plan now f = record {
    id = id_or f.plan_id (lit "migration-" ++ decimal now);
    version = natural 1;
    table = trim f.table;
    strategy = lit "expand-contract";
    expand = [];
    backfill = record {
      column = [];
      batch_size = natural 5000;
      throttle_ms = natural 20;
      source_expr = [];
    };
    verify = record {
      mode = lit "shadow-read";
      parity_threshold = f.slo_parity;
      sample_rate = literal 5 2;
    };
    canary = record {
      steps = map natural (parse_steps f.canary_steps);
      bake_seconds = natural 120;
    };
    slo = record {
      max_p99_latency_ms = f.slo_p99;
      max_error_rate_pct = f.slo_error_rate;
      min_parity = f.slo_parity;
    };
    contract = [];
    rollback = [];
    on_failure = lit "rollback";
    add_columns = some_if_any (named_columns f.columns);
    drop_columns = some_if_any f.drop_columns;
  }

  -- `mode === 'json' ? JSON.parse(json) : buildPlan()`
  unfoldable pub plan_of : ℕ → Form Num → Result (MigrationPlan Num)
  unfolding build_plan
  plan_of now f = elim f.mode [
    | json_mode ↦ H.parse_json f.json
    | form_mode ↦ ok (build_plan now f)
  ]
