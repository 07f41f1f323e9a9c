-- ===== src/Dashboard/Numbers.antt =====
-- Which page numbers frontend/src/pages/Dashboard.tsx offers, and where it leaves a gap.
use migration_safety_engine.Dashboard.Pages.{
  PageItem, dots_if, nums_from, page_numbers, num, rounds, dots,
}
use migration_safety_engine.Prelude.{
  Bool, Bool-cases, List, [], arith, false, inl, inr, leb, ltb, refl, suc, true, zero, ℕ, ◌&&◌,
  ◌++◌, ◌+◌, ◌<◌, ◌==◌, ◌||◌, ◌∷◌, ◌≡◌, max, min, ◌-◌, ◌∙◌, not, ◌⊎◌,
}

-- The number is offered.
unfoldable pub offers : ℕ → List PageItem → Bool
offers n [] = false
offers n (num m ∷ items) = m == n || offers n items
offers n (dots ∷ items) = offers n items

-- Neighbouring numbers follow one another, unless dots stand between them.
unfoldable pub follows : PageItem → List PageItem → Bool
follows item [] = true
follows (num m) (num n ∷ items) = n == m + 1 && follows (num n) items
follows (num m) (dots ∷ items) = follows dots items
follows dots (item ∷ items) = follows item items

unfoldable pub has_no_gap : List PageItem → Bool
unfolding follows
has_no_gap [] = true
has_no_gap (item ∷ items) = follows item items

offers-append : (n : ℕ) (xs ys : List PageItem) → offers n (xs ++ ys) ≡ (offers n xs || offers n ys)
unfolding offers
offers-append n [] ys = refl
offers-append n (num m ∷ xs) ys = ground (arith, offers-append n xs ys)
offers-append n (dots ∷ xs) ys = offers-append n xs ys

offers-nums_from :
    (n first k : ℕ) → offers n (nums_from first k) ≡ (leb first n && ltb n (first + k))
unfolding offers nums_from
offers-nums_from n first zero = ground arith
offers-nums_from n first (suc k) = ground (arith, offers-nums_from n (first + 1) k)

offers-dots_if : (n : ℕ) (b : Bool) → offers n (dots_if b) ≡ false
unfolding offers
offers-dots_if n true = refl
offers-dots_if n false = refl

-- A number is offered exactly if it is that of a page and, with more than 7 pages, the first, the
-- last, or at most one away from the current page.
pub offers-page_numbers :
    (total page n : ℕ)
    → page < total
    → offers n (page_numbers total page) ≡ (
        ltb n total
        && (leb total 7 || n == 0 || n + 1 == total || leb page (n + 1) && leb n (page + 1)))
unfolding page_numbers offers
offers-page_numbers total page n h = elim (Bool-cases (leb total 7)) [
  | inl few ↦ rw few (offers-nums_from n 0 total ∙ ground arith)
  | inr many ↦
      let first : ℕ = max 1 (page - 1) in
      let last : ℕ = min (total - 2) (page + 1) in
      let end : List PageItem = dots_if (ltb page (total - 4)) ++ num (total - 1) ∷ [] in
      let middle : List PageItem = nums_from first (rounds first last) in
      rw many (
        ground (
          arith,
          offers-append n (dots_if (ltb 3 page)) (middle ++ end),
          offers-dots_if n (ltb 3 page),
          offers-append n middle end,
          offers-nums_from n first (rounds first last),
          offers-append n (dots_if (ltb page (total - 4))) (num (total - 1) ∷ []),
          offers-dots_if n (ltb page (total - 4)),
        ))
]

follows-nums_from : (m k : ℕ) → follows (num m) (nums_from (m + 1) k) ≡ true
unfolding follows nums_from
follows-nums_from m zero = refl
follows-nums_from m (suc k) = ground (arith, follows-nums_from (m + 1) k)

has_no_gap-nums_from : (k : ℕ) → has_no_gap (nums_from 0 k) ≡ true
unfolding has_no_gap nums_from
has_no_gap-nums_from zero = refl
has_no_gap-nums_from (suc k) = follows-nums_from 0 k

rounds_cases :
    (total page : ℕ)
    → page < total
    → 7 < total
    → (rounds (max 1 (page - 1)) (min (total - 2) (page + 1)) ≡ 1)
      ⊎ ((rounds (max 1 (page - 1)) (min (total - 2) (page + 1)) ≡ 2)
          ⊎ (rounds (max 1 (page - 1)) (min (total - 2) (page + 1)) ≡ 3))
rounds_cases total page h k = grind arith

-- The numbers from `first` on, with what stands before and after them.
abbrev around : ℕ → ℕ → ℕ → ℕ → List PageItem
around total page first k =
    num 0
    ∷ (dots_if (ltb 3 page)
        ++ (nums_from first k ++ (dots_if (ltb page (total - 4)) ++ num (total - 1) ∷ [])))

around_gap :
    (total page k : ℕ)
    → page < total
    → 7 < total
    → rounds (max 1 (page - 1)) (min (total - 2) (page + 1)) ≡ k
    → (k ≡ 1) ⊎ ((k ≡ 2) ⊎ (k ≡ 3))
    → has_no_gap (around total page (max 1 (page - 1)) k) ≡ not (page == 3 || page + 4 == total)
unfolding has_no_gap nums_from
around_gap total page k h many e (inl one) = rw one (ground arith)
around_gap total page k h many e (inr (inl two)) = rw two (ground arith)
around_gap total page k h many e (inr (inr three)) = rw three (ground arith)

-- With more than 7 pages a page is left out with no dots in its place exactly when the current page is
-- the fourth or the fourth from the end; with at most 7 pages, never.
pub has_no_gap-page_numbers :
    (total page : ℕ)
    → page < total
    → has_no_gap (page_numbers total page) ≡ (leb total 7 || not (page == 3 || page + 4 == total))
unfolding page_numbers
has_no_gap-page_numbers total page h = elim (Bool-cases (leb total 7)) [
  | inl few ↦ rw few (has_no_gap-nums_from total)
  | inr many ↦
      let seven : 7 < total = ground arith in
      rw many (around_gap total page _ h seven refl (rounds_cases total page h seven))
]
