-- ===== src/Poll/Timers.antt =====
-- `pollRef` of frontend/src/pages/Dashboard.tsx and MigrationDetail.tsx, with the intervals that the
-- browser runs. The ids of `setInterval` are positive, so that `if (pollRef.current)` tests for null.
use migration_safety_engine.Prelude.{
  Bool, List, Option, [], filter, if◌then◌else◌, none, not, some, ℕ, ◌++◌, ◌+◌, ◌==◌, ◌∷◌,
}

pub record Timers : Type 0 where
  pub next_id : ℕ
  pub live : List ℕ
  pub poll_ref : Option ℕ

abbrev pub no_timers : Timers
no_timers = record { next_id = 1; live = []; poll_ref = none }

-- `pollRef.current = setInterval(…)`
unfoldable pub set_interval : Timers → Timers
set_interval t = record {
  next_id = t.next_id + 1;
  live = t.live ++ t.next_id ∷ [];
  poll_ref = some t.next_id;
}

unfoldable pub clear_interval : ℕ → Timers → Timers
clear_interval id t = record t { live = filter (λ i. not (i == id)) t.live }

-- the body of the effect, by its test
unfoldable pub poll_effect : Bool → Timers → Timers
unfolding set_interval clear_interval
poll_effect running t =
    if running
    then set_interval t
    else elim t.poll_ref [ none ↦ t | some id ↦ record (clear_interval id t) { poll_ref = none } ]

-- the function that the effect returns
unfoldable pub poll_cleanup : Timers → Timers
unfolding clear_interval
poll_cleanup t = elim t.poll_ref [ none ↦ t | some id ↦ clear_interval id t ]

-- A dependency has changed.
unfoldable pub poll_again : Bool → Timers → Timers
unfolding poll_effect poll_cleanup
poll_again running t = poll_effect running (poll_cleanup t)
