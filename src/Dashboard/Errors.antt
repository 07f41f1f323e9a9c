-- ===== src/Dashboard/Errors.antt =====
-- How long a message of an error stays on the page of frontend/src/pages/Dashboard.tsx.
use migration_safety_engine.IdSet.{has}
use migration_safety_engine.Dashboard.Pages.{total_pages}
use migration_safety_engine.Dashboard.Rows.{ids_of, terminal_rows, toggle_select}
use migration_safety_engine.Dashboard.Events.{
  Dashboard, ask_delete, cancel_delete, choose_all, choose_row, clear_selection, finish_delete,
  finish_demo, go_to_page, next_page, previous_page, set_search, start_delete, start_demo, fetched,
  shown, paged,
}
use migration_safety_engine.Prelude.{
  All, Bool, List, Text, [], false, if◌then◌else◌, leb, refl, true, ◌+◌, ◌-◌, ◌==◌, ◌∙◌, ◌∷◌, ◌≡◌,
}
use migration_safety_engine.Dashboard.Invariant.{
  click_previous, click_next, click_delete, click_row, Event, handle, handle_all, demo_started,
  type_search, answer, deleted, click_demo,
}
use migration_safety_engine.Api.Effects.{ok, thrown}

-- An event that is no failure of the server and does not start a demo.
abbrev pub IsCalm : {Num : Type 0} → Event Num → Type 0
IsCalm (answer (thrown message)) = ⊥
IsCalm (deleted (thrown message)) = ⊥
IsCalm (demo_started (thrown message)) = ⊥
IsCalm click_demo = ⊥
IsCalm _ = Unit

module _ {Num : Type 0} (lower : Text → Text) where
  either_error :
      (b : Bool) (d e : Dashboard Num) → e.error ≡ d.error → (if b then d else e).error ≡ d.error
  either_error true d e h = refl
  either_error false d e h = h

  handle-error : (e : Event Num) (d : Dashboard Num) → IsCalm e → (handle lower e d).error ≡ d.error
  unfolding handle fetched set_search previous_page next_page go_to_page choose_row choose_all
      clear_selection ask_delete cancel_delete start_delete finish_delete start_demo finish_demo
  handle-error (answer (ok rows)) d h = refl
  handle-error (answer (thrown message)) d h = absurd h
  handle-error (type_search q) d h = refl
  handle-error click_previous d h =
      either_error (d.page == 0) d (record d { page = d.page - 1 }) refl
  handle-error click_next d h =
      either_error (leb (total_pages (shown lower d)) (d.page + 1)) d
        (record d { page = d.page + 1 }) refl
  handle-error (click_row id) d h =
      either_error (has id (ids_of (terminal_rows (paged lower d))))
        (record d { selected = toggle_select id d.selected }) d refl
  handle-error click_delete d h =
      either_error d.deleting d (record d { show_delete_confirm = true }) refl
  handle-error (deleted (ok done_value)) d h = refl
  handle-error (deleted (thrown message)) d h = absurd h
  handle-error click_demo d h = absurd h
  handle-error (demo_started (ok result)) d h = refl
  handle-error (demo_started (thrown message)) d h = absurd h
  handle-error _ d h = refl

  -- However often the list is fetched with success, and whatever the user does, the message of an earlier
  -- failure stays on the page, until another failure replaces it or a demo is started.
  pub error-handle_all :
      (es : List (Event Num)) (d : Dashboard Num)
      → All IsCalm es
      → (handle_all lower es d).error ≡ d.error
  unfolding handle_all
  error-handle_all [] d h = refl
  error-handle_all (e ∷ es) d h = error-handle_all es (handle lower e d) h.1 ∙ handle-error e d h.0
