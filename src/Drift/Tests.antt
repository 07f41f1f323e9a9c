-- ===== src/Drift/Tests.antt =====
-- The drift scan (frontend/src/pages/DriftScanPage.tsx) on small inputs, and its property there.
use migration_safety_engine.Api.Uri.{digits_from, decimal}
use migration_safety_engine.Drift.Report.{
  Readings, is_clean, level_color, parity_bar, parity_level, parity_text, report_view_of,
}
use migration_safety_engine.Types.Reports.{DriftReport}
use migration_safety_engine.Toast.Provider.{initial}
use migration_safety_engine.Api.Effects.{thrown, rejected, ok}
use migration_safety_engine.Api.Session.{page_load}
use migration_safety_engine.NewPlan.Form.{Host}
use migration_safety_engine.Prelude.{
  [], false, lit, none, refl, ℕ, ◌≡◌, if◌then◌else◌, leb, ltb, min, ◌%◌, ◌*◌, ◌++◌, ◌/◌, ◌==◌, ◌∷◌,
}
use migration_safety_engine.Drift.Scan.{
  Outcome, Scan, handle_scan, handle_scan-Outcome, scan_failed, scan_started,
}

abbrev plain_host : Host ℕ
plain_host = record {
  literal = λ digits places. digits;
  parse_json = λ text. thrown (lit "Unexpected end of JSON input");
  print_json = λ plan. [];
  format_json = λ text. ok text;
}

abbrev opened_scan : Scan ℕ
opened_scan = record {
  json = [];
  error = [];
  scanning = false;
  report = none;
  world = page_load none;
  provider = initial;
}

scan_test :
    (handle_scan plain_host (rejected []) opened_scan).error ≡ lit "Unexpected end of JSON input"
unfolding handle_scan scan_started scan_failed
scan_test = refl

handle_scan-Outcome_example :
    Outcome plain_host (rejected []) opened_scan (handle_scan plain_host (rejected []) opened_scan)
handle_scan-Outcome_example = handle_scan-Outcome plain_host (rejected []) opened_scan

-- Numbers as thousandths.
abbrev thousandths : Readings ℕ
thousandths = record {
  literal = λ digits places.
      if places == 3 then digits else (if places == 2 then digits * 10 else digits * 1000);
  gt = λ a b. ltb b a;
  ge = λ a b. leb b a;
  same = λ a b. a == b;
  mul = λ a b. a * b / 1000;
  min_num = λ a b. min a b;
  round = λ a. a;
  shown_num = λ a. decimal (a / 1000);
  locale_num = λ a. decimal (a / 1000);
  fixed1 = λ a. decimal (a / 1000) ++ b'.' ∷ decimal (a % 1000 / 100);
}

-- 1 row of 2000 has drifted: the parity is green, and the status is that of a drift.
abbrev drifted_report : DriftReport ℕ
drifted_report = record {
  table = lit "a";
  column = lit "b";
  total = 2000000;
  nulls = 0;
  drifted = 1000;
  parity = 999;
}

report_test :
    ((report_view_of thousandths drifted_report).score ≡ lit "99.9%")
    × ((report_view_of thousandths drifted_report).score_color ≡ lit "var(--success)")
    × ((report_view_of thousandths drifted_report).status ≡ lit "Drift Detected")
    × ((report_view_of thousandths drifted_report).bar.width ≡ lit "99%")
unfolding report_view_of parity_level parity_text parity_bar level_color is_clean decimal
    digits_from
report_test = (refl, refl, refl, refl)
