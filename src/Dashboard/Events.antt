-- ===== src/Dashboard/Events.antt =====
-- The state of the component `Dashboard` (frontend/src/pages/Dashboard.tsx) and its handlers. A handler
-- that awaits the server is two functions, up to the call and from its result on. `settle` is what the
-- effects on `[search]` and `[filtered]` do after a handler. The server's list is never null here.
use migration_safety_engine.Dashboard.Pages.{page_rows, total_pages}
use migration_safety_engine.Dashboard.Rows.{
  Rows, ids_of, terminal_rows, toggle_select, toggle_select_all, filtered, prune,
}
use migration_safety_engine.Api.Effects.{Result, ok, thrown}
use migration_safety_engine.Types.Records.{PlanSubmission}
use migration_safety_engine.IdSet.{IdSet, has}
use migration_safety_engine.Prelude.{
  Bool, List, Text, [], false, if◌then◌else◌, leb, lit, true, ℕ, ◌++◌, ◌+◌, ◌-◌, ◌==◌,
}

pub record Dashboard (Num : Type 0) : Type 0 where
  pub migrations : Rows Num
  pub loading : Bool
  pub error : Text
  pub running_demo : Bool
  pub demo_output : Text
  pub search : Text
  pub page : ℕ
  pub selected : IdSet
  pub show_delete_confirm : Bool
  pub deleting : Bool

module _ {Num : Type 0} (lower : Text → Text) where
  abbrev pub mounted : Dashboard Num
  mounted = record {
    migrations = [];
    loading = true;
    error = [];
    running_demo = false;
    demo_output = [];
    search = [];
    page = 0;
    selected = [];
    show_delete_confirm = false;
    deleting = false;
  }

  abbrev pub shown : Dashboard Num → Rows Num
  shown d = filtered lower d.search d.migrations

  abbrev pub paged : Dashboard Num → Rows Num
  paged d = page_rows (shown d) d.page

  abbrev pub settle : Dashboard Num → Dashboard Num
  settle d = record d { selected = prune (shown d) d.selected }

  -- `fetchMigrations`, from the answer on
  unfoldable pub fetched : Result (Rows Num) → Dashboard Num → Dashboard Num
  fetched (ok rows) d = settle (record d { migrations = rows; loading = false })
  fetched (thrown message) d = record d { error = message; loading = false }

  unfoldable pub set_search : Text → Dashboard Num → Dashboard Num
  set_search q d = settle (record d { search = q; page = 0 })

  -- the arrows and the numbers under the list
  unfoldable pub previous_page : Dashboard Num → Dashboard Num
  previous_page d = if d.page == 0 then d else record d { page = d.page - 1 }

  unfoldable pub next_page : Dashboard Num → Dashboard Num
  next_page d =
      if leb (total_pages (shown d)) (d.page + 1) then d else record d { page = d.page + 1 }

  unfoldable pub go_to_page : ℕ → Dashboard Num → Dashboard Num
  go_to_page n d = record d { page = n }

  -- the box of a row of the page, which is disabled unless the row is terminal
  unfoldable pub choose_row : Text → Dashboard Num → Dashboard Num
  choose_row id d =
      if has id (ids_of (terminal_rows (paged d)))
      then record d { selected = toggle_select id d.selected }
      else d

  unfoldable pub choose_all : Dashboard Num → Dashboard Num
  choose_all d = record d { selected = toggle_select_all (terminal_rows (paged d)) d.selected }

  unfoldable pub clear_selection : Dashboard Num → Dashboard Num
  clear_selection d = record d { selected = [] }

  unfoldable pub ask_delete : Dashboard Num → Dashboard Num
  ask_delete d = if d.deleting then d else record d { show_delete_confirm = true }

  unfoldable pub cancel_delete : Dashboard Num → Dashboard Num
  cancel_delete d = record d { show_delete_confirm = false }

  -- `handleBulkDelete`: the state while the server works, and the ids that it is sent
  unfoldable pub start_delete : Dashboard Num → Dashboard Num × List Text
  start_delete d = (record d { deleting = true; show_delete_confirm = false }, d.selected)

  unfoldable pub finish_delete : Result (Unit {0}) → Dashboard Num → Dashboard Num
  finish_delete (ok done_value) d = record d { selected = []; deleting = false }
  finish_delete (thrown message) d = record d { error = message; deleting = false }

  -- `handleRunDemo`
  unfoldable pub start_demo : Dashboard Num → Dashboard Num
  start_demo d = record d { running_demo = true; demo_output = []; error = [] }

  unfoldable pub finish_demo : Result PlanSubmission → Dashboard Num → Dashboard Num
  finish_demo (ok result) d = record d {
    demo_output = lit "Migration started: " ++ result.migration_id;
    running_demo = false;
  }
  finish_demo (thrown message) d = record d { error = message; running_demo = false }
