-- ===== src/Shell/TerminalLines.antt =====
-- The lines of the two demos of the terminal of frontend/src/pages/LoginPage.tsx.
use migration_safety_engine.Prelude.{List, Option, Text, [], lit, none, some, ℕ, ◌∷◌}

pub data LineKind : Type 0 where
  command_line output_line phase_line sql_line meta_line success_line progress_line canary_line
        final_line warning_line error_line rollback_line :
      LineKind

pub record TerminalLine : Type 0 where
  pub text : Text
  pub kind : LineKind
  pub delay : Option ℕ

abbrev pub line : Text → LineKind → Option ℕ → TerminalLine
line text kind delay = record { text = text; kind = kind; delay = delay }

-- TERMINAL_LINES and ROLLBACK_LINES
abbrev pub terminal_lines : List TerminalLine
terminal_lines =
    line (lit "$ mse deploy --table orders --strategy canary") command_line none
    ∷ line (lit "Connecting to postgres://prod-db:5432/meridian...") output_line (some 400)
    ∷ line (lit "Analyzing table schema... found 13 columns, 2.1M rows") output_line (some 800)
    ∷ line [] output_line (some 1000)
    ∷ line (lit "Phase 1/4  Expanding schema") phase_line (some 1200)
    ∷ line (lit "  ALTER TABLE orders ADD COLUMN shipping_class text;") sql_line (some 1500)
    ∷ line (lit "  Lock acquired in 12ms  |  Statement timeout: 60s") meta_line (some 1800)
    ∷ line (lit "  Schema expanded successfully") success_line (some 2100)
    ∷ line [] output_line (some 2200)
    ∷ line (lit "Phase 2/4  Backfilling 2,147,832 rows") phase_line (some 2400)
    ∷ line (lit "  Batch 1/215  rows=10,000  throttle=50ms  health=0.94") progress_line (some 2700)
    ∷ line (lit "  Batch 107/215  rows=1,070,000  throttle=45ms  health=0.97") progress_line
        (some 3200)
    ∷ line (lit "  Backfill complete  2,147,832 rows in 4m32s") success_line (some 3600)
    ∷ line [] output_line (some 3700)
    ∷ line (lit "Phase 3/4  Canary  1% → 5% → 25% → 100%") phase_line (some 3900)
    ∷ line (lit "  Traffic 1%    p99=42ms  err=0.00%  parity=100%  ✓") canary_line (some 4200)
    ∷ line (lit "  Traffic 5%    p99=38ms  err=0.00%  parity=100%  ✓") canary_line (some 4600)
    ∷ line (lit "  Traffic 25%   p99=41ms  err=0.01%  parity=100%  ✓") canary_line (some 5000)
    ∷ line (lit "  Traffic 100%  p99=44ms  err=0.00%  parity=100%  ✓") canary_line (some 5400)
    ∷ line [] output_line (some 5500)
    ∷ line (lit "Phase 4/4  Contracting schema") phase_line (some 5700)
    ∷ line (lit "  ALTER TABLE orders DROP COLUMN legacy_shipping;") sql_line (some 6000)
    ∷ line (lit "  Legacy column dropped") success_line (some 6300)
    ∷ line [] output_line (some 6400)
    ∷ line (lit "Migration complete. Zero downtime. Zero data loss.") final_line (some 6700)
    ∷ []

abbrev pub rollback_lines : List TerminalLine
rollback_lines =
    line (lit "$ mse deploy --table checkout --strategy canary") command_line none
    ∷ line (lit "Connecting to postgres://prod-db:5432/velocity...") output_line (some 300)
    ∷ line [] output_line (some 500)
    ∷ line (lit "Phase 3/4  Canary  1% → 5% → 25% → 100%") phase_line (some 700)
    ∷ line (lit "  Traffic 1%    p99=38ms  err=0.00%  parity=100%  ✓") canary_line (some 1000)
    ∷ line (lit "  Traffic 5%    p99=41ms  err=0.02%  parity=100%  ✓") canary_line (some 1400)
    ∷ line (lit "  Traffic 25%   p99=187ms err=0.14%  parity=99.8%  ⚠") warning_line (some 1800)
    ∷ line [] output_line (some 2000)
    ∷ line (lit "  SLO BREACH: p99 latency 187ms exceeds 100ms threshold") error_line (some 2300)
    ∷ line (lit "  Triggering automatic rollback...") error_line (some 2600)
    ∷ line (lit "  Rolling back canary traffic to 0%") rollback_line (some 2900)
    ∷ line (lit "  ALTER TABLE checkout DROP COLUMN IF EXISTS promo_v2;") sql_line (some 3200)
    ∷ line (lit "  Schema restored to pre-migration state") success_line (some 3500)
    ∷ line [] output_line (some 3600)
    ∷ line (lit "Rollback complete. Production unaffected. No user impact.") final_line (some 3900)
    ∷ []

pub data Demo : Type 0 where
  success_demo rollback_demo : Demo

-- `lines`
abbrev pub lines_of_demo : Demo → List TerminalLine
lines_of_demo success_demo = terminal_lines
lines_of_demo rollback_demo = rollback_lines
