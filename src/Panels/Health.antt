-- ===== src/Panels/Health.antt =====
-- What frontend/src/components/ExecutiveHealthPanel.tsx shows of a migration.
use migration_safety_engine.Types.States.{State, state_text}
use migration_safety_engine.Types.Records.{MigrationRecord, ThrottleEvent}
use migration_safety_engine.Prelude.{
  Bool, List, Option, Text, [], false, foldl, if◌then◌else◌, lit, none, or_else, some, text_eq,
  true, ◌&&◌, ◌++◌, ◌∷◌,
}

pub data MigrationOutcome : Type 0 where
  success throttled rolled_back : MigrationOutcome

-- `n && n > 0` and `!n || n === 0`, for a number that is not NaN
pub record Counts (Num : Type 0) : Type 0 where
  pub is_positive : Num → Bool
  pub is_zero : Num → Bool

abbrev count_test {ℓ} : {A : Type ℓ} → (A → Bool) → Bool → Option A → Bool
count_test p d none = d
count_test p d (some n) = p n

abbrev state_is : State → Text → Bool
state_is s t = text_eq (state_text s) t

module _ {Num : Type 0} (K : Counts Num) where
  unfoldable pub get_outcome : MigrationRecord Num → MigrationOutcome
  unfolding state_text text_eq
  get_outcome m =
      if state_is m.state (lit "RolledBack")
      then rolled_back
      else if state_is m.state (lit "Done") && count_test K.is_positive false m.throttle_events
      then throttled
      else success

  unfoldable pub get_throttle_events : MigrationRecord Num → List ThrottleEvent
  get_throttle_events m =
      if count_test K.is_zero true m.throttle_events then [] else or_else m.throttle_events_list []

  -- the heading of the panel
  abbrev pub heading : MigrationRecord Num → Text
  heading m = elim (get_outcome m) [
    | success ↦ lit "MIGRATION COMPLETED SUCCESSFULLY"
    | throttled ↦ lit "MIGRATION COMPLETED WITH THROTTLING"
    | rolled_back ↦ lit "MIGRATION ROLLED BACK " ++ 0x2014 ∷ lit " AUTOMATIC RECOVERY"
  ]

-- `throttleEvents.reduce((acc, e) => acc + e.duration, '0s')`
unfoldable pub total_throttle_time : List ThrottleEvent → Text
total_throttle_time = foldl (λ acc e. acc ++ e.duration) (lit "0s")
