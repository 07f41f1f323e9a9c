-- ===== src/Dashboard/ScreenTests.antt =====
-- The table of frontend/src/pages/Dashboard.tsx on small inputs, and its properties there.
use migration_safety_engine.Dashboard.Numbers.{offers}
use migration_safety_engine.IdSet.{has, insert, remove}
use migration_safety_engine.Dashboard.RowEvents.{navigate}
use migration_safety_engine.IdSet.{has, remove, insert}
use migration_safety_engine.Api.Effects.{ok}
use migration_safety_engine.Types.States.{state_color, state_text, done}
use migration_safety_engine.Dashboard.RowEvents.{
  prevent_default, row_calls, row_path, press_on, box, navigate,
}
use migration_safety_engine.Dashboard.Pages.{nums_from, page_numbers, page_rows, total_pages}
use migration_safety_engine.Api.Uri.{digits_from, decimal}
use migration_safety_engine.Dashboard.Invariant.{
  click_delete, click_row, handle_all, answer, handle,
}
use migration_safety_engine.Dashboard.Table.{
  bulk_actions, card_of, delete_dialog, demo_label, dot_class_of, live_banner, no_results_text,
  pagination_of, row_view, stat_cards, table_body, success_text, plural, skeleton,
}
use migration_safety_engine.Dashboard.Tests.{ascii_lower, rows, migration}
use migration_safety_engine.Dashboard.Rows.{
  all_selected, rolled_back_rows, some_selected, terminal_rows, toggle_select, filtered, active,
  completed, prune,
}
use migration_safety_engine.Types.Records.{MigrationRecord}
use migration_safety_engine.Dashboard.Screen.{
  IsStranded, click_page, click_pages, fetched-IsStranded, left_arrow, paged-click_pages,
  right_arrow, number, PageClick,
}
use migration_safety_engine.Dashboard.Events.{
  Dashboard, ask_delete, choose_row, go_to_page, next_page, previous_page, mounted, fetched, shown,
  paged,
}
use migration_safety_engine.Prelude.{
  List, Text, [], arith, false, lit, refl, some, text_eq, true, ℕ, ◌++◌, ◌<◌, ◌∷◌, ◌≡◌, ◌≤◌,
}

-- The text of the server's time is shown as it is.
abbrev as_sent : Text → Text
as_sent t = t

abbrev second_page : Dashboard ℕ
second_page = record (mounted ascii_lower) { page = 1 }

found_page : total_pages (filtered ascii_lower [] rows) ≤ 1
unfolding total_pages filtered
found_page = omega arith

fetched-IsStranded_example :
    IsStranded ascii_lower as_sent (fetched ascii_lower (ok rows) second_page)
fetched-IsStranded_example =
    fetched-IsStranded ascii_lower as_sent rows second_page (omega arith) found_page (omega arith)

abbrev many_rows : List (MigrationRecord ℕ)
many_rows =
    let eight = (rows ++ rows) ++ (rows ++ rows) in
    let thirty_two = (eight ++ eight) ++ (eight ++ eight) in thirty_two ++ (thirty_two ++ eight)

abbrev clicks : List PageClick
clicks = right_arrow ∷ number 2 ∷ right_arrow ∷ left_arrow ∷ []

abbrev emptied : Dashboard ℕ
emptied =
    handle_all ascii_lower
      (answer (ok rows) ∷ click_row (lit "m1") ∷ click_delete ∷ answer (ok []) ∷ [])
      (mounted ascii_lower)

abbrev full : Dashboard ℕ
full = record (mounted ascii_lower) { migrations = many_rows; loading = false }

pages_full : 0 < total_pages (shown ascii_lower full)
unfolding total_pages filtered
pages_full = omega arith

paged-click_pages_example :
    ((click_pages ascii_lower clicks full).page < total_pages (shown ascii_lower full))
    × (shown ascii_lower (click_pages ascii_lower clicks full) ≡ shown ascii_lower full)
    × (¬ (paged ascii_lower (click_pages ascii_lower clicks full) ≡ []))
paged-click_pages_example = paged-click_pages ascii_lower clicks full pages_full

screen : Unit {0}
unfolding table_body card_of pagination_of bulk_actions row_view state_text state_color dot_class_of
    no_results_text demo_label delete_dialog plural stat_cards success_text live_banner active
    completed rolled_back_rows terminal_rows page_rows filtered has prune fetched decimal
    digits_from row_calls row_path total_pages all_selected some_selected text_eq handle_all handle
    choose_row ask_delete toggle_select insert remove page_numbers nums_from click_page click_pages
    next_page previous_page go_to_page offers
screen = tt

clicks_test : (click_pages ascii_lower clicks full).page ≡ 2
unfolding screen
clicks_test = refl

-- The dialog stays open when the answer of a poll empties the selection.
emptied_test :
    (emptied.show_delete_confirm ≡ true) × ((delete_dialog emptied).0 ≡ lit "Delete 0 migrations?")
unfolding screen
emptied_test = (refl, refl)

texts_test :
    (success_text rows ≡ lit "1 of 1")
    × (live_banner rows ≡ some (lit "1 migration running"))
    × ((card_of ascii_lower as_sent (record full { migrations = rows })).count ≡ 2)
    × (table_body {Num = ℕ} ascii_lower as_sent (mounted ascii_lower) ≡ skeleton)
unfolding screen
texts_test = (refl, refl, refl, refl)

-- The space bar on the box of a row opens its migration.
space_test :
    row_calls (migration (lit "m1") done true) (press_on (lit " ") box)
    ≡ prevent_default ∷ navigate (lit "/migrations/m1") ∷ []
unfolding screen
space_test = refl
