-- ===== src/Poll/Lifecycle.antt =====
-- How many intervals run, over the life of the effect of frontend/src/pages/Dashboard.tsx and
-- MigrationDetail.tsx.
use migration_safety_engine.Poll.Timers.{
  Timers, clear_interval, poll_again, poll_cleanup, poll_effect, set_interval,
}
use migration_safety_engine.Prelude.{
  Bool, Option-cases, [], ap, arith, false, filter, if◌then◌else◌, inl, inr, length, none, not,
  refl, some, true, ℕ, ◌++◌, ◌==◌, ◌∷◌, ◌≡◌,
}

-- While the test holds, one interval runs and the ref knows it; otherwise none runs.
pub data IsPolling (t : Timers) : Bool → Type 0 where
  polling : (id : ℕ) → t.live ≡ id ∷ [] → t.poll_ref ≡ some id → IsPolling t true
  quiet : t.live ≡ [] → t.poll_ref ≡ none → IsPolling t false

filter_self : (id : ℕ) → filter (λ i. not (i == id)) (id ∷ []) ≡ []
filter_self id = ground arith

-- After the cleanup no interval runs.
pub poll_cleanup_lem :
    (t : Timers) (running : Bool) → IsPolling t running → (poll_cleanup t).live ≡ []
unfolding poll_cleanup clear_interval
poll_cleanup_lem t true (polling id one known) = rw (known, poll_cleanup) (rw one (filter_self id))
poll_cleanup_lem t false (quiet none_live unknown) = rw (unknown, poll_cleanup) none_live

poll_effect-IsPolling :
    (t : Timers) (running : Bool) → t.live ≡ [] → IsPolling (poll_effect running t) running
unfolding poll_effect set_interval clear_interval
poll_effect-IsPolling t true h = polling t.next_id (ap (λ l. l ++ t.next_id ∷ []) h) refl
poll_effect-IsPolling t false h = elim (Option-cases t.poll_ref) [
  | inl e ↦ quiet (rw (e, poll_effect) h) (rw (e, poll_effect) e)
  | inr (id, e) ↦
      quiet (rw (e, poll_effect) (ap (filter (λ i. not (i == id))) h)) (rw (e, poll_effect) refl)
]

pub poll_again-IsPolling :
    (t : Timers) (before running : Bool)
    → IsPolling t before
    → IsPolling (poll_again running t) running
unfolding poll_again
poll_again-IsPolling t before running h =
    poll_effect-IsPolling (poll_cleanup t) running (poll_cleanup_lem t before h)

pub length-IsPolling :
    (t : Timers) (running : Bool) → IsPolling t running → length t.live ≡ (if running then 1 else 0)
length-IsPolling t true (polling id one known) = ap length one
length-IsPolling t false (quiet none_live unknown) = ap length none_live
