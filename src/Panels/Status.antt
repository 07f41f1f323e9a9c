-- ===== src/Panels/Status.antt =====
-- frontend/src/components/SystemStatusPanel.tsx: its state and the thresholds of its colors.
use migration_safety_engine.Prometheus.Floats.{Floats}
use migration_safety_engine.Dict.{Dict}
use migration_safety_engine.Api.Effects.{Answer, is_ok, rejected, responded, ok, thrown}
use migration_safety_engine.Prelude.{
  Bool, Option, Text, false, if◌then◌else◌, lit, none, not, some, true, ◌&&◌,
}

pub record Migrations (Num : Type 0) : Type 0 where
  pub total : Num
  pub states : Dict Num

pub record Database (Num : Type 0) : Type 0 where
  pub active_connections : Num
  pub idle_connections : Num
  pub max_connections : Num

pub record Workers (Num : Type 0) : Type 0 where
  pub running : Num
  pub pending_jobs : Num

pub record SystemStatus (Num : Type 0) : Type 0 where
  pub status : Text
  pub time : Text
  pub migrations : Option (Migrations Num)
  pub database : Option (Database Num)
  pub replication_lag_ms : Option Num
  pub workers : Option (Workers Num)

pub record StatusPanel (Num : Type 0) : Type 0 where
  pub status : Option (SystemStatus Num)
  pub loading : Bool

module _ {Num : Type 0} where
  abbrev pub first_status : StatusPanel Num
  first_status = record { status = none; loading = true }

  -- `fetchStatus`, from the answer of `fetch('/status')` on
  unfoldable pub status_fetched : Answer (SystemStatus Num) → StatusPanel Num → StatusPanel Num
  unfolding is_ok
  status_fetched (rejected message) p = record p { loading = false }
  status_fetched (responded r) p =
      if is_ok r
      then elim r.json [
        | ok found ↦ record { status = some found; loading = false }
        | thrown message ↦ record p { loading = false }
      ]
      else record p { loading = false }

  -- whether anything is shown: `loading || !status` hides the panel
  abbrev pub is_shown : StatusPanel Num → Bool
  is_shown p = not p.loading && elim p.status [ none ↦ false | some found ↦ true ]

  -- the class of a value by its two thresholds
  abbrev pub level : (Num → Num → Bool) → Num → Num → Num → Text
  level gt danger warning n =
      if gt n danger then lit "danger" else if gt n warning then lit "warning" else lit "success"

module _ (F : Floats) (round : F.Num → F.Num) where
  open F use {Num, zero_num, hundred, add, mul, div}

  -- `dbPct`; `round` is `Math.round`
  unfoldable pub db_pct : SystemStatus Num → Num
  db_pct s = elim s.database [
    | none ↦ zero_num
    | some d ↦
        round (mul (div (add d.active_connections d.idle_connections) d.max_connections) hundred)
  ]
