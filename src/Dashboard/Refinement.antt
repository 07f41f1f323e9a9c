-- ===== src/Dashboard/Refinement.antt =====
-- What the selection of frontend/src/pages/Dashboard.tsx promises: a set of ids, in which neither the order of
-- the clicks nor the list that represents it can be seen.
use migration_safety_engine.Api.Effects.{ok, thrown}
use migration_safety_engine.Dashboard.Pages.{total_pages}
use migration_safety_engine.Dashboard.Selection.{has-prune, has-toggle_select_all}
use migration_safety_engine.Dashboard.Rows.{
  Rows, ids_of, terminal_rows, toggle_select, all_selected, filtered,
}
use migration_safety_engine.IdSet.{IdSet, has-insert, has-remove, has}
use migration_safety_engine.Dashboard.Events.{
  Dashboard, ask_delete, cancel_delete, choose_all, choose_row, clear_selection, finish_delete,
  finish_demo, go_to_page, next_page, previous_page, set_search, start_delete, start_demo, fetched,
  paged, shown,
}
use migration_safety_engine.Prelude.{
  Bool, List, Text, [], all, ap, arith, false, if◌then◌else◌, length, ltb, not, refl, text_eq,
  text_eq_iff, true, ◌&&◌, ◌||◌, ◌∙◌, ◌∷◌, ◌≡◌, Bool-cases, inl, inr, leb, ◌+◌, ◌-◌, ◌==◌,
}
use migration_safety_engine.Dashboard.Invariant.{
  Event, handle, handle_all, click_clear, click_row, type_search, answer, click_delete,
  click_previous, demo_started, click_all, deleted, click_next,
}

-- The page with its selection as a set. The list in `view` is empty and is not looked at.
pub record Choice (Num : Type 0) : Type 0 where
  pub view : Dashboard Num
  pub chosen : Text → Bool

-- the set that a click on the box of a row, or on the box above the rows, leaves
abbrev pub flip_one : Text → (Text → Bool) → Text → Bool
flip_one id c x = if text_eq id x then not (c x) else c x

abbrev pub flip_all : {Num : Type 0} → Rows Num → (Text → Bool) → Text → Bool
flip_all rows c x =
    if ltb 0 (length rows) && all (λ m. c m.migration_id) rows
    then not (has x (ids_of rows)) && c x
    else has x (ids_of rows) || c x

module _ {Num : Type 0} where
  abbrev pub blank : Dashboard Num → Dashboard Num
  blank d = record d { selected = [] }

  abbrev pub choice_of : Dashboard Num → Choice Num
  choice_of d = record { view = blank d; chosen = λ x. has x d.selected }

has-toggle_select :
    (x id : Text) (s : IdSet) → has x (toggle_select id s) ≡ flip_one id (λ y. has y s) x
unfolding toggle_select
has-toggle_select x id s = ground (arith, has-remove x id s, has-insert x id s, text_eq_iff id x)

module _ {Num : Type 0} (lower : Text → Text) where
  -- what an event does with the set: `v` is the page before it
  abbrev pub choose : Event Num → Dashboard Num → (Text → Bool) → Text → Bool
  choose (answer (ok rows)) v c x = has x (ids_of (filtered lower v.search rows)) && c x
  choose (type_search q) v c x = has x (ids_of (filtered lower q v.migrations)) && c x
  choose (click_row id) v c x =
      if has id (ids_of (terminal_rows (paged lower v))) then flip_one id c x else c x
  choose click_all v c x = flip_all (terminal_rows (paged lower v)) c x
  choose click_clear v c x = false
  choose (deleted (ok done_value)) v c x = false
  choose _ v c x = c x

  abbrev pub choice_handle : Event Num → Choice Num → Choice Num
  choice_handle e a = record {
    view = blank (handle lower e a.view);
    chosen = choose e a.view a.chosen;
  }

  abbrev pub choice_handle_all : List (Event Num) → Choice Num → Choice Num
  choice_handle_all [] a = a
  choice_handle_all (e ∷ es) a = choice_handle_all es (choice_handle e a)

  either-blank :
      (b : Bool) (d e d' e' : Dashboard Num)
      → blank d ≡ blank d'
      → blank e ≡ blank e'
      → blank (if b then d else e) ≡ blank (if b then d' else e')
  either-blank true d e d' e' h k = h
  either-blank false d e d' e' h k = k

  -- Nothing but the selection depends on the selection.
  blank-handle :
      (e : Event Num) (d : Dashboard Num)
      → blank (handle lower e d) ≡ blank (handle lower e (blank d))
  unfolding handle fetched set_search previous_page next_page go_to_page choose_row choose_all
      clear_selection ask_delete cancel_delete start_delete finish_delete start_demo finish_demo
  blank-handle (answer (ok rows)) d = refl
  blank-handle (answer (thrown message)) d = refl
  blank-handle (type_search q) d = refl
  blank-handle click_previous d =
      either-blank (d.page == 0) d (record d { page = d.page - 1 }) (blank d)
        (record (blank d) { page = d.page - 1 }) refl refl
  blank-handle click_next d =
      either-blank (leb (total_pages (shown lower d)) (d.page + 1)) d
        (record d { page = d.page + 1 }) (blank d) (record (blank d) { page = d.page + 1 }) refl
        refl
  blank-handle (click_row id) d =
      either-blank (has id (ids_of (terminal_rows (paged lower d))))
        (record d { selected = toggle_select id d.selected }) d
        (record d { selected = toggle_select id [] }) (blank d) refl refl
  blank-handle click_delete d =
      either-blank d.deleting d (record d { show_delete_confirm = true }) (blank d)
        (record (blank d) { show_delete_confirm = true }) refl refl
  blank-handle (deleted (ok done_value)) d = refl
  blank-handle (deleted (thrown message)) d = refl
  blank-handle (demo_started (ok result)) d = refl
  blank-handle (demo_started (thrown message)) d = refl
  blank-handle _ d = refl

  either-has :
      (b : Bool) (x : Text) (d e : Dashboard Num)
      → e.selected ≡ d.selected
      → has x (if b then d else e).selected ≡ has x d.selected
  either-has true x d e h = refl
  either-has false x d e h = ap (has x) h

  has-click_row :
      (id : Text) (d : Dashboard Num) (x : Text)
      → has x (choose_row lower id d).selected ≡ choose (click_row id) d (λ y. has y d.selected) x
  unfolding choose_row
  has-click_row id d x = elim (Bool-cases (has id (ids_of (terminal_rows (paged lower d))))) [
    | inl enabled ↦ rw enabled (has-toggle_select x id d.selected)
    | inr disabled ↦ rw disabled refl
  ]

  has-click_all :
      (d : Dashboard Num) (x : Text)
      → has x (choose_all lower d).selected ≡ choose click_all d (λ y. has y d.selected) x
  unfolding choose_all all_selected
  has-click_all d x = has-toggle_select_all x (terminal_rows (paged lower d)) d.selected

  has-handle :
      (e : Event Num) (d : Dashboard Num) (x : Text)
      → has x (handle lower e d).selected ≡ choose e (blank d) (λ y. has y d.selected) x
  unfolding handle fetched set_search previous_page next_page go_to_page clear_selection ask_delete
      cancel_delete start_delete finish_delete start_demo finish_demo has
  has-handle (answer (ok rows)) d x = has-prune x (filtered lower d.search rows) d.selected
  has-handle (answer (thrown message)) d x = refl
  has-handle (type_search q) d x = has-prune x (filtered lower q d.migrations) d.selected
  has-handle click_previous d x = either-has (d.page == 0) x d (record d { page = d.page - 1 }) refl
  has-handle click_next d x =
      either-has (leb (total_pages (shown lower d)) (d.page + 1)) x d
        (record d { page = d.page + 1 }) refl
  has-handle (click_row id) d x = has-click_row id d x
  has-handle click_all d x = has-click_all d x
  has-handle click_delete d x =
      either-has d.deleting x d (record d { show_delete_confirm = true }) refl
  has-handle (deleted (ok done_value)) d x = refl
  has-handle (deleted (thrown message)) d x = refl
  has-handle (demo_started (ok result)) d x = refl
  has-handle (demo_started (thrown message)) d x = refl
  has-handle _ d x = refl

  choice_of-handle :
      (e : Event Num) (d : Dashboard Num)
      → choice_of (handle lower e d) ≡ choice_handle e (choice_of d)
  choice_of-handle e d i = record { view = blank-handle e d i; chosen = λ x. has-handle e d x i }

  handle_all-choice :
      (es : List (Event Num)) (d : Dashboard Num)
      → choice_of (handle_all lower es d) ≡ choice_handle_all es (choice_of d)
  unfolding handle_all
  handle_all-choice [] d = refl
  handle_all-choice (e ∷ es) d =
      handle_all-choice es (handle lower e d) ∙ ap (choice_handle_all es) (choice_of-handle e d)

  -- After any events from any state, the page is the one that the machine with a set has come to: the same
  -- rows, search, page number and messages, and the same ids selected; and a confirmed deletion sends the
  -- ids of that set.
  pub handle_all-Refines :
      (es : List (Event Num)) (d : Dashboard Num)
      → (choice_of (handle_all lower es d) ≡ choice_handle_all es (choice_of d))
        × ((x : Text)
            → has x (start_delete lower (handle_all lower es d)).1
              ≡ (choice_handle_all es (choice_of d)).chosen x)
  unfolding start_delete
  handle_all-Refines es d =
      (handle_all-choice es d, λ x. ap (λ a. a.chosen x) (handle_all-choice es d))
