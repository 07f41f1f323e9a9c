-- ===== src/Dashboard/Deletion.antt =====
-- What a deletion of frontend/src/pages/Dashboard.tsx comes to, by the answer of the server.
use migration_safety_engine.Api.Sent.{
  delete_request, list_request, sent-delete_migrations, sent-list_migrations,
  visible-delete_migrations,
}
use migration_safety_engine.Api.Calls.{delete_migrations, list_migrations}
use migration_safety_engine.Dashboard.Rows.{Rows, prune, filtered}
use migration_safety_engine.Dashboard.Events.{Dashboard, finish_delete, start_delete, fetched}
use migration_safety_engine.Dashboard.Requests.{Console, deleted_text, handle_bulk_delete}
use mathlib.Core.List.{append_assoc}
use migration_safety_engine.Prelude.{
  List, Text, [], false, inl, inr, length, refl, ◌++◌, ◌∷◌, ◌≡◌, ap,
}
use migration_safety_engine.Toast.Provider.{success, error, toast}
use migration_safety_engine.Api.Effects.{ok, thrown, Answer, Result, Result-cases, World}

module _ {Num : Type 0} (lower : Text → Text) where
  -- The two ways in which a deletion ends; `listed` is the answer of the list that follows a success.
  pub data Deleted (deleted : Answer (Unit {0})) (listed : Answer (Rows Num)) (s t : Console Num)
      : Type 0 where
    removed :
        (delete_migrations s.dashboard.selected deleted s.world).0 ≡ ok tt
        → t.world.sent
          ≡ s.world.sent ++ delete_request s.dashboard.selected s.world ∷ list_request s.world ∷ []
        → t.provider ≡ toast success (deleted_text (length s.dashboard.selected)) s.provider
        → t.dashboard.selected ≡ []
        → Deleted deleted listed s t
    refused :
        (message : Text)
        → (delete_migrations s.dashboard.selected deleted s.world).0 ≡ thrown message
        → t.world.sent ≡ s.world.sent ++ delete_request s.dashboard.selected s.world ∷ []
        → t.provider ≡ toast error message s.provider
        → t.dashboard.error ≡ message
        → t.dashboard.selected ≡ s.dashboard.selected
        → t.dashboard.migrations ≡ s.dashboard.migrations
        → Deleted deleted listed s t

  -- The button can be used again, and the dialog is closed.
  pub record IsIdle (d : Dashboard Num) : Type 0 where
    pub can_delete : d.deleting ≡ false
    pub no_dialog : d.show_delete_confirm ≡ false

  sent_both :
      (ids : List Text) (deleted : Answer (Unit {0})) (listed : Answer (Rows Num)) (w : World Num)
      → (list_migrations listed (delete_migrations ids deleted w).1).1.sent
        ≡ w.sent ++ delete_request ids w ∷ list_request w ∷ []
  sent_both ids deleted listed w =
      rw (sent-list_migrations listed (delete_migrations ids deleted w).1) (
        rw (visible-delete_migrations ids deleted w, sent-delete_migrations ids deleted w)
          (append_assoc w.sent (delete_request ids w ∷ []) (list_request w ∷ [])))

  -- The list that comes after a deletion leaves the empty selection, the flags and the dialog as they are.
  fetched_after :
      (r : Result (Rows Num)) (d : Dashboard Num)
      → d.selected ≡ []
      → ((fetched lower r d).selected ≡ [])
        × ((fetched lower r d).deleting ≡ d.deleting)
        × ((fetched lower r d).show_delete_confirm ≡ d.show_delete_confirm)
  unfolding fetched prune
  fetched_after (ok rows) d h = (ap (prune (filtered lower d.search rows)) h, refl, refl)
  fetched_after (thrown message) d h = (h, refl, refl)

  -- A confirmed deletion sends the server the selected ids once. If it succeeds, the list is asked for
  -- again and the selection is empty; if it fails, nothing else is sent, the message is on the page and in a
  -- notification, and the selection and the list are as they were. In both cases there is one new
  -- notification, the button can be used again, and the dialog is closed.
  pub handle_bulk_delete-Deleted :
      (deleted : Answer (Unit {0})) (listed : Answer (Rows Num)) (s : Console Num)
      → Deleted deleted listed s (handle_bulk_delete lower deleted listed s)
        × IsIdle (handle_bulk_delete lower deleted listed s).dashboard
  unfolding handle_bulk_delete start_delete finish_delete
  handle_bulk_delete-Deleted deleted listed s =
      let ids : List Text = s.dashboard.selected in
      elim (Result-cases (delete_migrations ids deleted s.world).0) [
        | inl (message, e) ↦
            rw (e, handle_bulk_delete)
              (
                refused message e (sent-delete_migrations ids deleted s.world) refl refl refl refl,
                record { can_delete = refl; no_dialog = refl },
              )
        | inr (tt, e) ↦
            let w : World Num = (delete_migrations ids deleted s.world).1 in
            let k =
              fetched_after (list_migrations listed w).0
                (finish_delete lower (ok tt) (start_delete lower s.dashboard).0) refl in
            rw (e, handle_bulk_delete)
              (
                removed e (sent_both ids deleted listed s.world) refl k.0,
                record { can_delete = k.1; no_dialog = k.2 },
              )
      ]
