-- ===== src/Dashboard/Table.antt =====
-- What frontend/src/pages/Dashboard.tsx shows of its state: the figures, the banners, the table of migrations
-- with its pages, and the texts of the dialog. `local_time` is `new Date(t).toLocaleString()`. The colours,
-- the labels and the texts are those of the source; what never changes is left out.
use migration_safety_engine.Api.Uri.{decimal}
use migration_safety_engine.Types.States.{State, state_color, state_text, done, rolled_back}
use migration_safety_engine.Dashboard.Rows.{
  Rows, all_selected, rolled_back_rows, some_selected, terminal_rows, active, completed,
}
use migration_safety_engine.Dashboard.Pages.{PageItem, total_pages, page_numbers}
use migration_safety_engine.Types.Records.{MigrationRecord}
use migration_safety_engine.IdSet.{IdSet, has}
use migration_safety_engine.Dashboard.Events.{Dashboard, paged, shown}
use migration_safety_engine.Prelude.{
  Bool, List, Option, Text, [], if◌then◌else◌, length, lit, ltb, map, none, not, some, ℕ, ◌&&◌,
  ◌++◌, ◌+◌, ◌==◌, ◌∷◌, leb,
}

pub record RowView : Type 0 where
  pub key : Text
  pub background : Option Text
  pub border_left : Text
  pub aria_label : Text
  pub box_checked : Bool
  pub box_disabled : Bool
  pub box_label : Text
  pub plan_id : Text
  pub badge_colors : Text × Text × Text
  pub dot_class : Text
  pub badge : Text
  pub status_color : Text
  pub status : Text
  pub updated : Text
  pub view_label : Text

-- the buttons under the table
pub record Pagination : Type 0 where
  pub previous_disabled : Bool
  pub numbers : List PageItem
  pub current : ℕ
  pub next_disabled : Bool

pub record TableCard : Type 0 where
  pub count : ℕ
  -- the number of selected ids and the button, when there are some
  pub bulk : Option (ℕ × Text × Bool)
  pub all_checked : Bool
  pub all_indeterminate : Bool
  pub row_views : List RowView
  pub no_results : Option Text
  pub pagination : Option Pagination

-- the part under the banners
pub data TableBody : Type 0 where
  skeleton : TableBody
  get_started : Text → Bool → TableBody
  table_card : TableCard → TableBody

unfoldable pub dot_class_of : State → Text
dot_class_of done = lit "done"
dot_class_of rolled_back = lit "rollback"
dot_class_of _ = lit "running"

unfoldable pub demo_label : Bool → Text
demo_label running_demo = if running_demo then lit "Running..." else lit "Run Demo"

unfoldable pub plural : ℕ → Text
plural n = if n == 1 then [] else lit "s"

-- `No results for "…"`
unfoldable pub no_results_text : Text → Text
no_results_text search = lit "No results for " ++ b'"' ∷ (search ++ b'"' ∷ [])

module _ {Num : Type 0} where
  -- the labels and the values of the cards
  unfoldable pub stat_cards : Rows Num → List (Text × ℕ)
  unfolding active completed rolled_back_rows
  stat_cards migrations =
      (lit "Total", length migrations)
      ∷ (lit "Active", length (active migrations))
      ∷ (lit "Done", length (completed migrations))
      ∷ (lit "Rolled Back", length (rolled_back_rows migrations))
      ∷ []

  unfoldable pub success_text : Rows Num → Text
  unfolding completed rolled_back_rows
  success_text migrations =
      let done_count = length (completed migrations) in
      decimal done_count
      ++ (lit " of " ++ decimal (done_count + length (rolled_back_rows migrations)))

  unfoldable pub live_banner : Rows Num → Option Text
  unfolding active
  live_banner migrations =
      let n = length (active migrations) in
      if ltb 0 n
      then some
          (decimal n ++ (lit " migration" ++ ((if ltb 1 n then lit "s" else []) ++ lit " running")))
      else none

  -- the title of the dialog, and the label of its button
  unfoldable pub delete_dialog : Dashboard Num → Text × Text
  unfolding plural
  delete_dialog d =
      let n = length d.selected in
      (
        lit "Delete " ++ (decimal n ++ (lit " migration" ++ (plural n ++ lit "?"))),
        if d.deleting then lit "Deleting..." else lit "Delete " ++ decimal n,
      )

  module _ (lower local_time : Text → Text) where
    unfoldable pub row_view : IdSet → MigrationRecord Num → RowView
    unfolding state_text state_color dot_class_of
    row_view selected m =
        let is_selected = has m.migration_id selected in
        record {
          key = m.migration_id;
          background = if is_selected then some (lit "rgba(129, 140, 248, 0.04)") else none;
          border_left =
              if is_selected then lit "2px solid var(--accent)" else lit "2px solid transparent";
          aria_label = m.plan_id ++ (lit ", " ++ state_text m.state);
          box_checked = is_selected;
          box_disabled = not m.terminal;
          box_label = lit "Select " ++ m.plan_id;
          plan_id = m.plan_id;
          badge_colors = (
            state_color m.state ++ lit "10",
            state_color m.state,
            state_color m.state ++ lit "25",
          );
          dot_class = dot_class_of m.state;
          badge = state_text m.state;
          status_color = if m.terminal then lit "var(--success)" else lit "var(--warning)";
          status = if m.terminal then lit "Terminal" else lit "Running";
          updated = local_time m.updated_at;
          view_label = lit "View " ++ m.plan_id;
        }

    unfoldable pub pagination_of : Dashboard Num → Option Pagination
    unfolding total_pages page_numbers
    pagination_of d =
        let pages = total_pages (shown lower d) in
        if ltb 1 pages
        then some (record {
          previous_disabled = d.page == 0;
          numbers = page_numbers pages d.page;
          current = d.page;
          next_disabled = leb pages (d.page + 1);
        })
        else none

    unfoldable pub bulk_actions : Dashboard Num → Option (ℕ × Text × Bool)
    bulk_actions d =
        if ltb 0 (length d.selected)
        then some (length d.selected, if d.deleting then lit "..." else lit "Delete", d.deleting)
        else none

    unfoldable pub card_of : Dashboard Num → TableCard
    unfolding bulk_actions all_selected some_selected terminal_rows row_view no_results_text
        pagination_of
    card_of d =
        let terminal_paged = terminal_rows (paged lower d) in
        let all_paged = all_selected terminal_paged d.selected in
        record {
          count = length (shown lower d);
          bulk = bulk_actions d;
          all_checked = all_paged;
          all_indeterminate = some_selected terminal_paged d.selected && not all_paged;
          row_views = map (row_view d.selected) (paged lower d);
          no_results =
              if length (paged lower d) == 0 then some (no_results_text d.search) else none;
          pagination = pagination_of d;
        }

    unfoldable pub table_body : Dashboard Num → TableBody
    unfolding demo_label card_of
    table_body d =
        if d.loading
        then skeleton
        else (if length d.migrations == 0
            then get_started (demo_label d.running_demo) d.running_demo
            else table_card (card_of d))
