-- ===== src/Drift/Report.antt =====
-- What frontend/src/pages/DriftScanPage.tsx shows of its state: the button, the message and the report.
-- `Readings` is what it takes from the language's numbers; what never changes is left out.
use mathlib.Core.Option
use migration_safety_engine.Drift.Scan.{Scan}
use migration_safety_engine.Types.Reports.{DriftReport}
use migration_safety_engine.Prelude.{
  Bool, List, Option, Text, [], if◌then◌else◌, is_empty, lit, none, some, ℕ, ◌&&◌, ◌++◌, ◌∷◌,
}

pub record Readings (Num : Type 0) : Type 0 where
  -- the number of a literal `digits / 10 ^ places`
  pub literal : (digits places : ℕ) → Num
  -- `>`, `>=` and `===`
  pub gt : Num → Num → Bool
  pub ge : Num → Num → Bool
  pub same : Num → Num → Bool
  pub mul : Num → Num → Num
  -- `Math.min` and `Math.round`
  pub min_num : Num → Num → Num
  pub round : Num → Num
  -- `${n}`, `n.toLocaleString()` and `n.toFixed(1)`
  pub shown_num : Num → Text
  pub locale_num : Num → Text
  pub fixed1 : Num → Text

-- The three classes of a parity.
pub data ParityLevel : Type 0 where
  high fair low : ParityLevel

unfoldable pub level_color : ParityLevel → Text
level_color high = lit "var(--success)"
level_color fair = lit "var(--warning)"
level_color low = lit "var(--danger)"

unfoldable pub level_background : ParityLevel → Text
level_background high = lit "var(--gradient-success)"
level_background fair = lit "var(--gradient-primary)"
level_background low = lit "var(--gradient-danger)"

unfoldable pub level_shadow : ParityLevel → Text
level_shadow high = lit "0 0 12px var(--success-glow)"
level_shadow fair = lit "0 0 12px var(--accent-glow)"
level_shadow low = lit "0 0 12px var(--danger-glow)"

-- a number of the report: its value, its label and its color
pub record DriftItem : Type 0 where
  pub value : Text
  pub label : Text
  pub color : Text

pub record ParityBar (Num : Type 0) : Type 0 where
  pub value_now : Num
  pub aria_label : Text
  pub width : Text
  pub background : Text
  pub box_shadow : Text

pub record ReportView (Num : Type 0) : Type 0 where
  pub items : List DriftItem
  pub score : Text
  pub score_color : Text
  pub bar : ParityBar Num
  pub table : Text
  pub column : Text
  pub status_color : Text
  pub status : Text

pub record ScanView (Num : Type 0) : Type 0 where
  pub button : Text
  pub button_disabled : Bool
  pub banner : Option Text
  pub grid_columns : Text
  pub text : Text
  pub report_view : Option (ReportView Num)

module _ {Num : Type 0} (N : Readings Num) where
  open N use {literal, gt, ge, same, mul, min_num, round, shown_num, locale_num, fixed1}

  unfoldable pub parity_level : Num → ParityLevel
  parity_level parity =
      if ge parity (literal 999 3) then high else (if ge parity (literal 99 2) then fair else low)

  -- `${(report.parity * 100).toFixed(1)}%`
  unfoldable pub parity_text : Num → Text
  parity_text parity = fixed1 (mul parity (literal 100 0)) ++ lit "%"

  -- the test of the status
  unfoldable pub is_clean : DriftReport Num → Bool
  is_clean report = same report.drifted (literal 0 0) && same report.nulls (literal 0 0)

  unfoldable pub drift_items : DriftReport Num → List DriftItem
  unfolding parity_level parity_text level_color
  drift_items report =
      record {
        value = locale_num report.total;
        label = lit "Total Rows";
        color = lit "var(--info)";
      }
      ∷ record {
        value = locale_num report.nulls;
        label = lit "Nulls";
        color =
            if gt report.nulls (literal 0 0) then lit "var(--warning)" else lit "var(--success)";
      }
      ∷ record {
        value = locale_num report.drifted;
        label = lit "Drifted";
        color =
            if gt report.drifted (literal 0 0) then lit "var(--danger)" else lit "var(--success)";
      }
      ∷ record {
        value = parity_text report.parity;
        label = lit "Parity";
        color = level_color (parity_level report.parity);
      }
      ∷ []

  unfoldable pub parity_bar : Num → ParityBar Num
  unfolding parity_level parity_text level_background level_shadow
  parity_bar parity =
      let level = parity_level parity in
      record {
        value_now = round (mul parity (literal 100 0));
        aria_label = lit "Parity score: " ++ parity_text parity;
        width = shown_num (min_num (mul parity (literal 100 0)) (literal 100 0)) ++ lit "%";
        background = level_background level;
        box_shadow = level_shadow level;
      }

  unfoldable pub report_view_of : DriftReport Num → ReportView Num
  unfolding drift_items parity_text parity_level parity_bar level_color is_clean
  report_view_of report = record {
    items = drift_items report;
    score = parity_text report.parity;
    score_color = level_color (parity_level report.parity);
    bar = parity_bar report.parity;
    table = report.table;
    column = report.column;
    status_color = if is_clean report then lit "var(--success)" else lit "var(--danger)";
    status = if is_clean report then lit "Clean" else lit "Drift Detected";
  }

  unfoldable pub scan_view : Scan Num → ScanView Num
  unfolding report_view_of
  scan_view s = record {
    button = if s.scanning then lit "Scanning..." else lit "Run Scan";
    button_disabled = s.scanning;
    banner = if is_empty s.error then none else some s.error;
    grid_columns = elim s.report [ none ↦ lit "1fr" | some report ↦ lit "1fr 1fr" ];
    text = s.json;
    report_view = Option.map report_view_of s.report;
  }
