-- ===== src/Detail/Abort.antt =====
-- `handleAbort` of frontend/src/pages/MigrationDetail.tsx, with the requests that it sends and the
-- notification that it shows.
use migration_safety_engine.Api.Sent.{
  abort_request, get_request, sent-abort_migration, sent-get_migration, visible-abort_migration,
}
use migration_safety_engine.Api.Calls.{abort_migration, get_migration}
use migration_safety_engine.Detail.View.{View, abort_finished, abort_started}
use migration_safety_engine.Api.Effects.{Result-cases}
use migration_safety_engine.Toast.Provider.{Provider, toast, info, error}
use migration_safety_engine.Types.Records.{MigrationRecord}
use migration_safety_engine.Api.Effects.{Answer, Result, World, ok, thrown}
use mathlib.Core.List.{append_assoc}
use migration_safety_engine.Prelude.{
  Option, Text, [], false, inl, inr, lit, none, refl, some, ◌++◌, ◌∷◌, ◌≡◌,
}

pub record Screen (Num : Type 0) : Type 0 where
  pub view : View Num
  pub world : World Num
  pub provider : Provider

module _ {Num : Type 0} where
  -- The second component is the answer of the `fetchRecord` that follows a success.
  unfoldable pub handle_abort :
      Text
      → Answer (Unit {0})
      → Answer (MigrationRecord Num)
      → Screen Num
      → Screen Num × Option (Result (MigrationRecord Num))
  unfolding abort_started abort_finished abort_migration get_migration toast
  handle_abort id aborted found s = elim s.view.migration [
    | none ↦ (s, none)
    | some m ↦
        let (r, w) = abort_migration m.migration_id aborted s.world in
        elim r [
          | ok done_value ↦
              let (got, w') = get_migration id found w in
              (
                record {
                  view = abort_finished (ok done_value) (abort_started s.view);
                  world = w';
                  provider = toast info (lit "Migration abort initiated") s.provider;
                },
                some got,
              )
          | thrown message ↦ (
            record {
              view = abort_finished (thrown message) (abort_started s.view);
              world = w;
              provider = toast error message s.provider;
            },
            none,
          )
        ]
  ]

  pub data Aborted (id : Text) (m : MigrationRecord Num) (aborted : Answer (Unit {0}))
      (s t : Screen Num) : Type 0 where
    initiated :
        (abort_migration m.migration_id aborted s.world).0 ≡ ok tt
        → t.world.sent
          ≡ s.world.sent ++ abort_request m.migration_id s.world ∷ get_request id s.world ∷ []
        → t.provider ≡ toast info (lit "Migration abort initiated") s.provider
        → t.view.error ≡ s.view.error
        → Aborted id m aborted s t
    refused :
        (message : Text)
        → (abort_migration m.migration_id aborted s.world).0 ≡ thrown message
        → t.world.sent ≡ s.world.sent ++ abort_request m.migration_id s.world ∷ []
        → t.provider ≡ toast error message s.provider
        → t.view.error ≡ message
        → Aborted id m aborted s t

  -- The button can be used again, and the dialog is closed.
  pub record IsReady (v : View Num) : Type 0 where
    pub can_abort : v.aborting ≡ false
    pub no_dialog : v.show_abort_confirm ≡ false

  sent_both :
      (id mid : Text) (aborted : Answer (Unit {0})) (found : Answer (MigrationRecord Num))
      (w : World Num)
      → (get_migration id found (abort_migration mid aborted w).1).1.sent
        ≡ w.sent ++ abort_request mid w ∷ get_request id w ∷ []
  sent_both id mid aborted found w =
      rw (sent-get_migration id found (abort_migration mid aborted w).1) (
        rw (visible-abort_migration mid aborted w, sent-abort_migration mid aborted w)
          (append_assoc w.sent (abort_request mid w ∷ []) (get_request id w ∷ [])))

  -- A confirmed abort asks the server once to abort the migration that is shown. If that succeeds, the
  -- record is asked for again; if it fails, nothing else is sent, and the message is on the page and in
  -- a notification. In both cases there is one new notification, the button can be used again, and the
  -- dialog is closed.
  pub handle_abort-Aborted :
      (id : Text) (m : MigrationRecord Num) (aborted : Answer (Unit {0}))
      (found : Answer (MigrationRecord Num)) (s : Screen Num)
      → s.view.migration ≡ some m
      → Aborted id m aborted s (handle_abort id aborted found s).0
        × IsReady (handle_abort id aborted found s).0.view
  unfolding handle_abort abort_started abort_finished
  handle_abort-Aborted id m aborted found s shown =
      elim (Result-cases (abort_migration m.migration_id aborted s.world).0) [
        | inl (message, e) ↦
            rw (shown, handle_abort)
              (rw (e, handle_abort)
                (
                  refused message e (sent-abort_migration m.migration_id aborted s.world) refl refl,
                  record { can_abort = refl; no_dialog = refl },
                ))
        | inr (tt, e) ↦
            rw (shown, handle_abort)
              (rw (e, handle_abort)
                (
                  initiated e (sent_both id m.migration_id aborted found s.world) refl refl,
                  record { can_abort = refl; no_dialog = refl },
                ))
      ]
