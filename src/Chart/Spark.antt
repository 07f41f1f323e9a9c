-- ===== src/Chart/Spark.antt =====
-- The figures above the list of frontend/src/pages/Dashboard.tsx: the success rate with its gauge, and the
-- sparklines.
use migration_safety_engine.Chart.Reals.{Reals, at_most}
use migration_safety_engine.Prelude.{
  List, Option, Text, [], if◌then◌else◌, join, length, lit, ltb, map, max, min, none, some, suc,
  zero, ℕ, ◌++◌, ◌+◌, ◌-◌, ◌∷◌,
}

module _ (R : Reals) where
  open R use {Num, num, sub, mul, div, round, pi, text_of}

  -- `successRate`, from the numbers of `completed` and `rolledBack`
  unfoldable pub success_rate : ℕ → ℕ → Num
  success_rate completed_count rolled_back_count =
      let total = completed_count + rolled_back_count in
      if ltb 0 total then round (mul (div (num completed_count) (num total)) (num 100)) else num 0

  -- `circ` and `offset` of `SuccessGauge`
  unfoldable pub circ : Num
  circ = mul (mul (num 2) pi) (num 36)

  unfoldable pub gauge_offset : Num → Num
  unfolding circ
  gauge_offset rate = sub circ (mul (div rate (num 100)) circ)

  -- `rate >= 90 ? ... : rate >= 70 ? ...`
  unfoldable pub rate_color : Num → Text
  rate_color rate =
      if at_most R (num 90) rate
      then lit "var(--success)"
      else if at_most R (num 70) rate
      then lit "var(--warning)"
      else lit "var(--danger)"

  unfoldable pub rate_text : Num → Text
  rate_text rate = text_of rate ++ lit "%"

  -- `points` of `Sparkline`
  unfoldable pub spark_x : ℕ → ℕ → Num
  spark_x count i = mul (div (num i) (num (count - 1))) (num 80)

  unfoldable pub spark_y : ℕ → ℕ → Num
  spark_y top v = sub (sub (num 32) (mul (div (num v) (num top)) (sub (num 32) (num 4)))) (num 2)

  unfoldable pub spark_points : ℕ → ℕ → ℕ → List ℕ → List (Num × Num)
  unfolding spark_x spark_y
  spark_points count top i [] = []
  spark_points count top i (v ∷ vs) =
      (spark_x count i, spark_y top v) ∷ spark_points count top (i + 1) vs

  -- `${x},${y}`, joined with a space
  unfoldable pub points_text : List (Num × Num) → Text
  points_text ps = join b' ' (map (λ p. text_of p.0 ++ b',' ∷ text_of p.1) ps)

-- `Math.max(...data, 1)`
unfoldable pub max_value : List ℕ → ℕ
max_value [] = 1
max_value (v ∷ vs) = max v (max_value vs)

module _ (R : Reals) where
  -- `points` and `areaPoints`, where a sparkline is drawn
  unfoldable pub sparkline : List ℕ → Option (Text × Text)
  unfolding max_value spark_points points_text
  sparkline values =
      let points = points_text R (spark_points R (length values) (max_value values) 0 values) in
      if ltb (length values) 2 then none else some (points, lit "0,32 " ++ (points ++ lit " 80,32"))

-- `sparkDone` and `sparkFailed`, from the numbers of `completed` and `rolledBack`: `k` values from the index `i`
unfoldable pub spark_done_from : ℕ → ℕ → ℕ → List ℕ
spark_done_from n i zero = []
spark_done_from n i (suc k) = max 1 (n - i) ∷ spark_done_from n (i + 1) k

unfoldable pub spark_done : ℕ → List ℕ
unfolding spark_done_from
spark_done n = spark_done_from n 0 (min 12 n)

unfoldable pub spark_failed_from : ℕ → ℕ → ℕ → List ℕ
spark_failed_from n i zero = []
spark_failed_from n i (suc k) = min 3 (n - i) ∷ spark_failed_from n (i + 1) k

unfoldable pub spark_failed : ℕ → List ℕ
unfolding spark_failed_from
spark_failed n = spark_failed_from n 0 (min 12 n)
