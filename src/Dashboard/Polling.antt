-- ===== src/Dashboard/Polling.antt =====
-- The effect on `[activeCount, fetchMigrations]` of frontend/src/pages/Dashboard.tsx.
use migration_safety_engine.Dashboard.Invariant.{Event, handle}
use mathlib.Core.Path.{subst}
use migration_safety_engine.Dashboard.Rows.{active}
use migration_safety_engine.Poll.Timers.{Timers, no_timers, poll_again, poll_cleanup}
use migration_safety_engine.Poll.Lifecycle.{
  IsPolling, length-IsPolling, poll_again-IsPolling, poll_cleanup_lem, quiet,
}
use migration_safety_engine.Dashboard.Events.{Dashboard, mounted}
use migration_safety_engine.Prelude.{
  Bool-cases, List, Text, [], arith, if◌then◌else◌, inl, inr, length, ltb, refl, ℕ, ◌==◌, ◌∷◌, ◌≡◌,
}

pub record Watched (Num : Type 0) : Type 0 where
  pub dashboard : Dashboard Num
  pub timers : Timers

module _ {Num : Type 0} where
  -- `activeCount`
  unfoldable pub active_count : Dashboard Num → ℕ
  unfolding active
  active_count d = length (active d.migrations)

module _ {Num : Type 0} (lower : Text → Text) where
  -- a handler, with the effect after it
  unfoldable pub watch_handle : Event Num → Watched Num → Watched Num
  unfolding active_count poll_again handle
  watch_handle e w =
      let d = handle lower e w.dashboard in
      record {
        dashboard = d;
        timers =
            if active_count d == active_count w.dashboard
            then w.timers
            else poll_again (ltb 0 (active_count d)) w.timers;
      }

  unfoldable pub watch_all : List (Event Num) → Watched Num → Watched Num
  unfolding watch_handle
  watch_all [] w = w
  watch_all (e ∷ es) w = watch_all es (watch_handle e w)

  abbrev pub opened_page : Watched Num
  opened_page = record { dashboard = mounted lower; timers = no_timers }

  abbrev IsWatched : Watched Num → Type 0
  IsWatched w = IsPolling w.timers (ltb 0 (active_count w.dashboard))

  watch_handle-IsWatched :
      (e : Event Num) (w : Watched Num) → IsWatched w → IsWatched (watch_handle e w)
  unfolding watch_handle
  watch_handle-IsWatched e w h =
      let d = handle lower e w.dashboard in
      elim (Bool-cases (active_count d == active_count w.dashboard)) [
        | inl same ↦
            let count : active_count w.dashboard ≡ active_count d = ground arith in
            rw same (subst (λ n. IsPolling w.timers (ltb 0 n)) count h)
        | inr changed ↦ rw changed (
            poll_again-IsPolling w.timers (ltb 0 (active_count w.dashboard))
              (ltb 0 (active_count d)) h)
      ]

  watch_all-IsWatched :
      (es : List (Event Num)) (w : Watched Num) → IsWatched w → IsWatched (watch_all es w)
  unfolding watch_all
  watch_all-IsWatched [] w h = h
  watch_all-IsWatched (e ∷ es) w h =
      watch_all-IsWatched es (watch_handle e w) (watch_handle-IsWatched e w h)

  -- After any events since the page was opened, one interval asks for the list if a migration of it is
  -- not terminal, and none does otherwise; and none is left when the page is closed.
  pub live-watch_all :
      (es : List (Event Num))
      → (length (watch_all es opened_page).timers.live
          ≡ (if ltb 0 (active_count (watch_all es opened_page).dashboard) then 1 else 0))
        × ((poll_cleanup (watch_all es opened_page).timers).live ≡ [])
  live-watch_all es =
      let w = watch_all es opened_page in
      let h = watch_all-IsWatched es opened_page (unfold active_count active in quiet refl refl) in
      (
        length-IsPolling w.timers (ltb 0 (active_count w.dashboard)) h,
        poll_cleanup_lem w.timers (ltb 0 (active_count w.dashboard)) h,
      )
