-- ===== src/Dashboard/Invariant.antt =====
-- Which ids the selection of frontend/src/pages/Dashboard.tsx can hold, and what a page number that has
-- gone out of range shows.
use migration_safety_engine.Dashboard.Paging.{page_rows_lem}
use migration_safety_engine.Dashboard.Pages.{page_rows, page_size, total_pages}
use migration_safety_engine.Dashboard.Selection.{has-prune, has-toggle_select_all}
use migration_safety_engine.Dashboard.Rows.{Rows, ids_of, terminal_rows, toggle_select, filtered}
use migration_safety_engine.Api.Effects.{Result, ok, thrown}
use migration_safety_engine.Types.Records.{MigrationRecord, PlanSubmission}
use migration_safety_engine.IdSet.{IdSet, has-insert, has-remove, has}
use migration_safety_engine.Dashboard.Events.{
  Dashboard, ask_delete, cancel_delete, choose_all, choose_row, clear_selection, finish_delete,
  finish_demo, go_to_page, next_page, previous_page, set_search, start_delete, start_demo, fetched,
  settle, paged, shown, mounted,
}
use migration_safety_engine.Prelude.{
  Bool, Bool-cases, List, Text, [], arith, drop, filter, inl, inr, suc, take, text_eq_iff, true,
  zero, ℕ, ◌*◌, ◌∷◌, ◌≡◌, ◌⊎◌, false, refl, ◌≤◌,
}

module _ {Num : Type 0} where
  has-ids_of-filter :
      (x : Text) (p : MigrationRecord Num → Bool) (rows : Rows Num)
      → has x (ids_of (filter p rows)) ≡ true
      → has x (ids_of rows) ≡ true
  unfolding has
  has-ids_of-filter x p [] h = h
  has-ids_of-filter x p (m ∷ rows) h = ground (arith, has-ids_of-filter x p rows)

  has-ids_of-take :
      (x : Text) (n : ℕ) (rows : Rows Num)
      → has x (ids_of (take n rows)) ≡ true
      → has x (ids_of rows) ≡ true
  unfolding has
  has-ids_of-take x zero rows h = cc
  has-ids_of-take x (suc n) [] h = h
  has-ids_of-take x (suc n) (m ∷ rows) h = ground (arith, has-ids_of-take x n rows)

  has-ids_of-drop :
      (x : Text) (n : ℕ) (rows : Rows Num)
      → has x (ids_of (drop n rows)) ≡ true
      → has x (ids_of rows) ≡ true
  unfolding has
  has-ids_of-drop x zero rows h = h
  has-ids_of-drop x (suc n) [] h = h
  has-ids_of-drop x (suc n) (m ∷ rows) h = ground (arith, has-ids_of-drop x n rows)

  has-terminal_rows :
      (x : Text) (rows : Rows Num) (page : ℕ)
      → has x (ids_of (terminal_rows (page_rows rows page))) ≡ true
      → has x (ids_of rows) ≡ true
  unfolding terminal_rows page_rows
  has-terminal_rows x rows page h = has-ids_of-drop x (page * page_size) rows (
      has-ids_of-take x page_size (drop (page * page_size) rows)
        (has-ids_of-filter x (λ m. m.terminal) (take page_size (drop (page * page_size) rows)) h))

has_of_toggle_select :
    (x id : Text) (s : IdSet) → has x (toggle_select id s) ≡ true → (id ≡ x) ⊎ (has x s ≡ true)
unfolding toggle_select
has_of_toggle_select x id s h =
    ground (arith, has-remove x id s, has-insert x id s, text_eq_iff id x)

has_none : (x : Text) → has x [] ≡ false
unfolding has
has_none x = refl

pub data Event (Num : Type 0) : Type 0 where
  answer : Result (Rows Num) → Event Num
  type_search : Text → Event Num
  click_previous click_next : Event Num
  click_number : ℕ → Event Num
  click_row : Text → Event Num
  click_all click_clear click_delete click_cancel click_confirm : Event Num
  deleted : Result (Unit {0}) → Event Num
  click_demo : Event Num
  demo_started : Result PlanSubmission → Event Num

module _ {Num : Type 0} (lower : Text → Text) where
  unfoldable pub handle : Event Num → Dashboard Num → Dashboard Num
  handle (answer r) d = fetched lower r d
  handle (type_search q) d = set_search lower q d
  handle click_previous d = previous_page lower d
  handle click_next d = next_page lower d
  handle (click_number n) d = go_to_page lower n d
  handle (click_row id) d = choose_row lower id d
  handle click_all d = choose_all lower d
  handle click_clear d = clear_selection lower d
  handle click_delete d = ask_delete lower d
  handle click_cancel d = cancel_delete lower d
  handle click_confirm d = (start_delete lower d).0
  handle (deleted r) d = finish_delete lower r d
  handle click_demo d = start_demo lower d
  handle (demo_started r) d = finish_demo lower r d

  unfoldable pub handle_all : List (Event Num) → Dashboard Num → Dashboard Num
  unfolding handle
  handle_all [] d = d
  handle_all (e ∷ es) d = handle_all es (handle e d)

  -- Every selected id is that of a migration in the filtered list.
  abbrev pub IsSound : Dashboard Num → Type 0
  IsSound d = (x : Text) → has x d.selected ≡ true → has x (ids_of (shown lower d)) ≡ true

  settle-IsSound : (d : Dashboard Num) → IsSound (settle lower d)
  settle-IsSound d x h = ground (arith, has-prune x (shown lower d) d.selected)

  choose_row-IsSound : (id : Text) (d : Dashboard Num) → IsSound d → IsSound (choose_row lower id d)
  unfolding choose_row
  choose_row-IsSound id d sound x =
      elim (Bool-cases (has id (ids_of (terminal_rows (paged lower d))))) [
        | inl enabled ↦ rw enabled (λ h. ground (
          arith,
          has_of_toggle_select x id d.selected h,
          sound x,
          has-terminal_rows id (shown lower d) d.page,
        ))
        | inr disabled ↦ rw disabled (sound x)
      ]

  choose_all-IsSound : (d : Dashboard Num) → IsSound d → IsSound (choose_all lower d)
  unfolding choose_all
  choose_all-IsSound d sound x h = ground (
    arith,
    has-toggle_select_all x (terminal_rows (paged lower d)) d.selected,
    sound x,
    has-terminal_rows x (shown lower d) d.page,
  )

  handle-IsSound : (e : Event Num) (d : Dashboard Num) → IsSound d → IsSound (handle e d)
  unfolding handle fetched set_search previous_page next_page go_to_page clear_selection ask_delete
      cancel_delete start_delete finish_delete start_demo finish_demo
  handle-IsSound (answer (ok rows)) d sound =
      settle-IsSound (record d { migrations = rows; loading = false })
  handle-IsSound (answer (thrown message)) d sound = sound
  handle-IsSound (type_search q) d sound = settle-IsSound (record d { search = q; page = 0 })
  handle-IsSound (click_row id) d sound = choose_row-IsSound id d sound
  handle-IsSound click_all d sound = choose_all-IsSound d sound
  handle-IsSound _ d sound = λ x. ground (arith, sound x, has_none x)

  handle_all-IsSound :
      (es : List (Event Num)) (d : Dashboard Num) → IsSound d → IsSound (handle_all es d)
  unfolding handle_all
  handle_all-IsSound [] d sound = sound
  handle_all-IsSound (e ∷ es) d sound =
      handle_all-IsSound es (handle e d) (handle-IsSound e d sound)

  -- After any events since the page was opened, a confirmed deletion sends the server only ids of
  -- migrations in the filtered list that is on the screen.
  pub start_delete-shown :
      (es : List (Event Num)) (x : Text)
      → has x (start_delete lower (handle_all es (mounted lower))).1 ≡ true
      → has x (ids_of (shown lower (handle_all es (mounted lower)))) ≡ true
  unfolding start_delete
  start_delete-shown es x h =
      handle_all-IsSound es (mounted lower) (λ y k. ground (arith, has_none y)) x h

  -- When the server's answer leaves fewer pages than the current page number, the table shows no row,
  -- however many migrations the answer has: the page number stays as it was.
  pub fetched_past_end :
      (rows : Rows Num) (d : Dashboard Num)
      → total_pages (filtered lower d.search rows) ≤ d.page
      → (paged lower (fetched lower (ok rows) d) ≡ []) × ((fetched lower (ok rows) d).page ≡ d.page)
  unfolding fetched
  fetched_past_end rows d h = ((page_rows_lem (filtered lower d.search rows) d.page).1.1 h, refl)
