-- ===== src/Prometheus/Floats.antt =====
-- JavaScript numbers, with the operations that lib/prometheus.ts applies to a sample's value. The
-- development has no floating-point numbers: it takes them as this record.
use migration_safety_engine.Prelude.{Bool, ◌||◌, Text, if◌then◌else◌}

pub record Floats : Type 1 where
  pub Num : Type 0
  pub zero_num : Num
  pub one : Num
  pub hundred : Num
  -- `+`, `*`, `/`, `>` and `===`
  pub add : Num → Num → Num
  pub mul : Num → Num → Num
  pub div : Num → Num → Num
  pub gt : Num → Num → Bool
  pub eq : Num → Num → Bool
  pub is_nan : Num → Bool
  pub parse_float : Text → Num

-- `x || 0`
abbrev pub or_zero : (F : Floats) → F.Num → F.Num
or_zero F x = if F.eq x F.zero_num || F.is_nan x then F.zero_num else x
