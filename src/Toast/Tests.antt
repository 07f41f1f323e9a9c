-- ===== src/Toast/Tests.antt =====
-- The notifications of frontend/src/components/Toast.tsx: a short run, and the properties at it.
use migration_safety_engine.Toast.Invariant.{
  Reach-IsValid, dismiss-IsGone, fire_all, fire_all-toasts,
}
use migration_safety_engine.Toast.Provider.{
  Provider, toast, initial, error, dismiss, info, success, expire,
}
use migration_safety_engine.Toast.Schedule.{HasOtherId, IsValid, Reach, next, here, show}
use migration_safety_engine.Prelude.{All, [], arith, lit, refl, ◌<◌, ◌∷◌, ◌≡◌}

abbrev two_toasts : Provider
two_toasts = toast error (lit "b") (toast success (lit "a") initial)

toasts_test :
    ((dismiss 0 two_toasts).toasts ≡ record { id = 1; kind = error; message = lit "b" } ∷ [])
    × ((expire 1 two_toasts).timers ≡ 0 ∷ [])
unfolding toast dismiss expire
toasts_test = (refl, refl)

initial-IsValid : IsValid initial
initial-IsValid = record { used_ids = tt; used_timers = tt; distinct = tt; timed = tt }

two_shown : Reach initial two_toasts
two_shown =
    next (next here (show success (lit "a") initial))
      (show error (lit "b") (toast success (lit "a") initial))

Reach-IsValid_example : IsValid two_toasts
Reach-IsValid_example = Reach-IsValid initial-IsValid two_shown

used_zero : 0 < two_toasts.next_id
unfolding toast
used_zero = omega arith

dismiss-IsGone_example : All (HasOtherId 0) (toast info (lit "c") (dismiss 0 two_toasts)).toasts
dismiss-IsGone_example =
    dismiss-IsGone 0 two_toasts (toast info (lit "c") (dismiss 0 two_toasts)) used_zero
      (next here (show info (lit "c") (dismiss 0 two_toasts)))

two_toasts-IsValid : IsValid two_toasts
two_toasts-IsValid = Reach-IsValid initial-IsValid two_shown

fire_all-toasts_example : (fire_all two_toasts.timers two_toasts).toasts ≡ []
fire_all-toasts_example = fire_all-toasts two_toasts two_toasts-IsValid
