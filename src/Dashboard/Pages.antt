-- ===== src/Dashboard/Pages.antt =====
-- The pages of the list and the numbers under it (frontend/src/pages/Dashboard.tsx).
use migration_safety_engine.Prelude.{
  Bool, List, [], drop, false, if◌then◌else◌, leb, length, ltb, max, min, suc, take, true, zero, ℕ,
  ◌*◌, ◌++◌, ◌+◌, ◌-◌, ◌/◌, ◌∷◌,
}

-- PAGE_SIZE of lib/constants.ts
abbrev pub page_size : ℕ
page_size = 20

module _ {ℓ} {A : Type ℓ} where
  -- `paged`
  unfoldable pub page_rows : List A → ℕ → List A
  page_rows filtered page = let start = page * page_size in take page_size (drop start filtered)

  -- `totalPages`: `Math.ceil(filtered.length / PAGE_SIZE)`
  unfoldable pub total_pages : List A → ℕ
  total_pages filtered = (length filtered + (page_size - 1)) / page_size

pub data PageItem : Type 0 where
  num : ℕ → PageItem
  dots : PageItem

-- `for (let i = first; …; i++) nums.push(i)`, by the number of rounds
unfoldable pub nums_from : ℕ → ℕ → List PageItem
nums_from first zero = []
nums_from first (suc rounds) = num first ∷ nums_from (first + 1) rounds

-- the rounds of `for (let i = first; i <= last; i++)`
abbrev pub rounds : ℕ → ℕ → ℕ
rounds first last = last + 1 - first

abbrev pub dots_if : Bool → List PageItem
dots_if true = dots ∷ []
dots_if false = []

-- `pageNumbers`
unfoldable pub page_numbers : ℕ → ℕ → List PageItem
unfolding nums_from
page_numbers total page =
    if leb total 7
    then nums_from 0 total
    else (let first = max 1 (page - 1) in
        let last = min (total - 2) (page + 1) in
        num 0
        ∷ (dots_if (ltb 3 page)
            ++ (nums_from first (rounds first last)
                ++ (dots_if (ltb page (total - 4)) ++ num (total - 1) ∷ []))))
