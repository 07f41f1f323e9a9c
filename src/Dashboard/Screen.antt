-- ===== src/Dashboard/Screen.antt =====
-- What the table of frontend/src/pages/Dashboard.tsx shows when the number of pages changes, and what its
-- arrows and numbers lead to.
use mathlib.Core.Path.{subst}
use migration_safety_engine.Api.Effects.{ok}
use migration_safety_engine.Dashboard.Numbers.{offers, offers-page_numbers}
use migration_safety_engine.Dashboard.Pages.{total_pages, page_numbers}
use migration_safety_engine.Dashboard.Paging.{page_rows_lem}
use migration_safety_engine.Dashboard.Table.{
  card_of, no_results_text, pagination_of, table_body, table_card, row_view,
}
use migration_safety_engine.Dashboard.Rows.{Rows, filtered}
use migration_safety_engine.Dashboard.Events.{
  Dashboard, go_to_page, next_page, previous_page, fetched, shown, paged,
}
use migration_safety_engine.Prelude.{
  Text, [], arith, length, none, some, ℕ, ◌<◌, ◌≡◌, ◌≤◌, List, if◌then◌else◌, ltb, ◌&&◌, ◌∷◌, ap,
  false, map, refl, ◌==◌, Bool, true, leb, ◌+◌, ◌-◌, ◌∙◌,
}

-- A click under the table.
pub data PageClick : Type 0 where
  left_arrow right_arrow : PageClick
  number : ℕ → PageClick

module _ {Num : Type 0} (lower local_time : Text → Text) where
  -- The table has the one line that nothing was found, and no buttons under it.
  pub record IsStranded (d : Dashboard Num) : Type 0 where
    pub is_card : table_body lower local_time d ≡ table_card (card_of lower local_time d)
    pub no_row : (card_of lower local_time d).row_views ≡ []
    pub not_found : (card_of lower local_time d).no_results ≡ some (no_results_text d.search)
    pub no_button : (card_of lower local_time d).pagination ≡ none

  stranded_lem :
      (d : Dashboard Num)
      → d.loading ≡ false
      → 0 < length d.migrations
      → total_pages (shown lower d) ≤ 1
      → 0 < d.page
      → IsStranded d
  unfolding table_body card_of pagination_of
  stranded_lem d loaded some_row one_page later =
      let empty : paged lower d ≡ [] = (page_rows_lem (shown lower d) d.page).1.1 (omega arith) in
      let found : (length d.migrations == 0) ≡ false = ground arith in
      let few : ltb 1 (total_pages (shown lower d)) ≡ false = ground arith in
      record {
        is_card = rw loaded (rw found refl);
        no_row = ap (map (row_view lower local_time d.selected)) empty;
        not_found = ap (λ l. if length l == 0 then some (no_results_text d.search) else none) empty;
        no_button = rw few refl;
      }

  -- When the answer of the server leaves at most one page of the migrations that the search finds, while the
  -- page is not the first one, the table says that there are no results and has no buttons to go back with,
  -- however many migrations the search finds.
  pub fetched-IsStranded :
      (rows : Rows Num) (d : Dashboard Num)
      → 0 < length rows
      → total_pages (filtered lower d.search rows) ≤ 1
      → 0 < d.page
      → IsStranded (fetched lower (ok rows) d)
  unfolding fetched
  fetched-IsStranded rows d some_row one_page later =
      stranded_lem (fetched lower (ok rows) d) refl some_row one_page later

module _ {Num : Type 0} (lower : Text → Text) where
  -- what the click does, where its button is there and enabled
  unfoldable pub click_page : PageClick → Dashboard Num → Dashboard Num
  unfolding offers previous_page next_page go_to_page
  click_page left_arrow d = if ltb 1 (total_pages (shown lower d)) then previous_page lower d else d
  click_page right_arrow d = if ltb 1 (total_pages (shown lower d)) then next_page lower d else d
  click_page (number n) d =
      if ltb 1 (total_pages (shown lower d))
        && offers n (page_numbers (total_pages (shown lower d)) d.page)
      then go_to_page lower n d
      else d

  unfoldable pub click_pages : List PageClick → Dashboard Num → Dashboard Num
  unfolding click_page
  click_pages [] d = d
  click_pages (c ∷ cs) d = click_pages cs (click_page c d)

  -- The other state has a page that there is, of the same rows.
  abbrev Keeps : Dashboard Num → Dashboard Num → Type 0
  Keeps d e = (e.page < total_pages (shown lower d)) × (shown lower e ≡ shown lower d)

  if-Keeps :
      (b : Bool) (d e f : Dashboard Num)
      → (b ≡ true → Keeps d e)
      → (b ≡ false → Keeps d f)
      → Keeps d (if b then e else f)
  if-Keeps true d e f h k = h refl
  if-Keeps false d e f h k = k refl

  previous_page-Keeps :
      (d : Dashboard Num) → d.page < total_pages (shown lower d) → Keeps d (previous_page lower d)
  unfolding previous_page
  previous_page-Keeps d h =
      if-Keeps (d.page == 0) d d (record d { page = d.page - 1 }) (λ first. (h, refl))
        (λ later. (omega arith, refl))

  next_page-Keeps :
      (d : Dashboard Num) → d.page < total_pages (shown lower d) → Keeps d (next_page lower d)
  unfolding next_page
  next_page-Keeps d h =
      if-Keeps (leb (total_pages (shown lower d)) (d.page + 1)) d d (record d { page = d.page + 1 })
        (λ last. (h, refl)) (λ more. (ground arith, refl))

  click_page-Keeps :
      (c : PageClick) (d : Dashboard Num)
      → d.page < total_pages (shown lower d)
      → Keeps d (click_page c d)
  unfolding click_page go_to_page
  click_page-Keeps left_arrow d h =
      if-Keeps (ltb 1 (total_pages (shown lower d))) d (previous_page lower d) d
        (λ many. previous_page-Keeps d h) (λ few. (h, refl))
  click_page-Keeps right_arrow d h =
      if-Keeps (ltb 1 (total_pages (shown lower d))) d (next_page lower d) d
        (λ many. next_page-Keeps d h) (λ few. (h, refl))
  click_page-Keeps (number n) d h =
      let pages : ℕ = total_pages (shown lower d) in
      if-Keeps (ltb 1 pages && offers n (page_numbers pages d.page)) d (go_to_page lower n d) d
        (λ offered. (ground (arith, offers-page_numbers pages d.page n h), refl))
        (λ refused. (h, refl))

  click_pages-Keeps :
      (cs : List PageClick) (d : Dashboard Num)
      → d.page < total_pages (shown lower d)
      → Keeps d (click_pages cs d)
  unfolding click_pages
  click_pages-Keeps [] d h = (h, refl)
  click_pages-Keeps (c ∷ cs) d h =
      let k = click_page-Keeps c d h in
      let e : Dashboard Num = click_page c d in
      let more = click_pages-Keeps cs e (rw k.1 k.0) in
      (subst (λ rows. (click_pages cs e).page < total_pages rows) k.1 more.0, more.1 ∙ k.1)

  -- Where the page is one that there is, any clicks on the arrows and the numbers under the table, as far as
  -- they are there and enabled, lead to a page that there is and that has a row, and leave the list as it is.
  pub paged-click_pages :
      (cs : List PageClick) (d : Dashboard Num)
      → d.page < total_pages (shown lower d)
      → ((click_pages cs d).page < total_pages (shown lower d))
        × (shown lower (click_pages cs d) ≡ shown lower d)
        × (¬ (paged lower (click_pages cs d) ≡ []))
  paged-click_pages cs d h =
      let k = click_pages-Keeps cs d h in
      let e : Dashboard Num = click_pages cs d in
      let no_row : ¬ (paged lower e ≡ []) = λ none_there.
        omega
          (arith, k.0, ap total_pages k.1, (page_rows_lem (shown lower e) e.page).1.0 none_there) in
      (k.0, k.1, no_row)
