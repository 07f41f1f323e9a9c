-- ===== src/Dashboard/Rows.antt =====
-- What frontend/src/pages/Dashboard.tsx computes from the migrations, the search text and the
-- selection. `lower` is `toLowerCase`.
use migration_safety_engine.Types.States.{State, rolled_back, state_text, done}
use migration_safety_engine.Types.Records.{MigrationRecord}
use migration_safety_engine.IdSet.{IdSet, insert_all, remove_all, has, remove, insert}
use migration_safety_engine.Prelude.{
  Bool, List, Text, all, any, false, filter, if◌then◌else◌, includes, is_empty, length, ltb, map,
  not, true, ◌&&◌, ◌==◌, ◌||◌,
}

abbrev is_done : State → Bool
is_done done = true
is_done _ = false

abbrev is_rolled_back : State → Bool
is_rolled_back rolled_back = true
is_rolled_back _ = false

unfoldable pub toggle_select : Text → IdSet → IdSet
toggle_select id prev = if has id prev then remove id prev else insert id prev

abbrev pub Rows : Type 0 → Type 0
Rows Num = List (MigrationRecord Num)

module _ {Num : Type 0} where
  unfoldable pub active : Rows Num → Rows Num
  active = filter (λ m. not m.terminal)

  unfoldable pub completed : Rows Num → Rows Num
  completed = filter (λ m. is_done m.state)

  unfoldable pub rolled_back_rows : Rows Num → Rows Num
  rolled_back_rows = filter (λ m. is_rolled_back m.state)

  -- the test of `filtered`
  unfoldable pub row_matches : (Text → Text) → Text → MigrationRecord Num → Bool
  row_matches lower q m =
      includes q (lower m.plan_id)
      || includes q (lower (state_text m.state))
      || includes q (lower m.migration_id)

  -- `filtered`
  unfoldable pub filtered : (Text → Text) → Text → Rows Num → Rows Num
  unfolding row_matches
  filtered lower search list =
      if is_empty search then list else (let q = lower search in filter (row_matches lower q) list)

  abbrev pub ids_of : Rows Num → List Text
  ids_of = map (λ m. m.migration_id)

  -- `terminalPaged`
  unfoldable pub terminal_rows : Rows Num → Rows Num
  terminal_rows = filter (λ m. m.terminal)

  -- `allPagedSelected` and `somePagedSelected`
  unfoldable pub all_selected : Rows Num → IdSet → Bool
  all_selected terminal_paged selected =
      ltb 0 (length terminal_paged) && all (λ m. has m.migration_id selected) terminal_paged

  unfoldable pub some_selected : Rows Num → IdSet → Bool
  some_selected terminal_paged selected = any (λ m. has m.migration_id selected) terminal_paged

  -- the updater of the effect on `[filtered]`
  unfoldable pub prune : Rows Num → IdSet → IdSet
  prune rows prev =
      let valid_ids = ids_of rows in
      let next = filter (λ id. has id valid_ids) prev in
      if length next == length prev then prev else next

  unfoldable pub toggle_select_all : Rows Num → IdSet → IdSet
  toggle_select_all terminal_paged selected =
      if all_selected terminal_paged selected
      then remove_all (ids_of terminal_paged) selected
      else insert_all (ids_of terminal_paged) selected
