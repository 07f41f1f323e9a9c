-- ===== src/Dashboard/Paging.antt =====
-- The pages of frontend/src/pages/Dashboard.tsx partition the list.
use migration_safety_engine.Dashboard.Pages.{page_rows, page_size, total_pages}
use migration_safety_engine.Prelude.{
  List, [], ap, arith, drop, length, length-drop, length-take, min, refl, suc, take, zero, ℕ, ◌*◌,
  ◌++◌, ◌+◌, ◌-◌, ◌/◌, ◌∙◌, ◌∷◌, ◌≡◌, ◌≤◌, sym, ◌↔◌,
}

module _ {ℓ} {A : Type ℓ} where
  -- The rows of the first `n` pages, one page after the other.
  unfoldable pub rows_before : List A → ℕ → List A
  rows_before l zero = []
  rows_before l (suc n) = rows_before l n ++ page_rows l n

  take-nil : (n : ℕ) → take {A = A} n [] ≡ []
  take-nil zero = refl
  take-nil (suc n) = refl

  take-drop-append : (n m : ℕ) (l : List A) → take n l ++ take m (drop n l) ≡ take (n + m) l
  take-drop-append zero m l = let e : zero + m ≡ m = omega arith in rw e
  take-drop-append (suc n) m [] = take-nil m ∙ sym (take-nil (suc n + m))
  take-drop-append (suc n) m (x ∷ l) =
      let e : suc n + m ≡ suc (n + m) = omega arith in
      rw e (ap (λ t. x ∷ t) (take-drop-append n m l))

  rows_before-take : (l : List A) (n : ℕ) → rows_before l n ≡ take (n * page_size) l
  unfolding rows_before page_rows
  rows_before-take l zero = refl
  rows_before-take l (suc n) =
      let e : suc n * page_size ≡ n * page_size + page_size = omega arith in
      rw (e, rows_before-take l n) (take-drop-append (n * page_size) page_size l)

  take_all : (n : ℕ) (l : List A) → length l ≤ n → take n l ≡ l
  take_all zero [] h = refl
  take_all zero (x ∷ l) h = absurd (omega arith)
  take_all (suc n) [] h = refl
  take_all (suc n) (x ∷ l) h = ap (λ t. x ∷ t) (take_all n l (omega arith))

  -- The pages, one after the other, are the list: no row is lost, repeated or moved.
  pub rows_before-total_pages : (l : List A) → rows_before l (total_pages l) ≡ l
  unfolding total_pages
  rows_before-total_pages l =
      rows_before-take l ((length l + 19) / 20)
      ∙ take_all ((length l + 19) / 20 * 20) l (omega arith)

  length-page_rows :
      (l : List A) (p : ℕ) → length (page_rows l p) ≡ min page_size (length l - p * page_size)
  unfolding page_rows
  length-page_rows l p =
      length-take page_size (drop (p * page_size) l)
      ∙ ap (min page_size) (length-drop (p * page_size) l)

  eq-nil_of_length : (l : List A) → length l ≡ 0 → l ≡ []
  eq-nil_of_length [] h = refl
  eq-nil_of_length (x ∷ l) h = absurd (omega arith)

  -- A page has as many rows as are left, at most 20, and it is empty exactly from `totalPages` on.
  pub page_rows_lem :
      (l : List A) (p : ℕ)
      → (length (page_rows l p) ≡ min page_size (length l - p * page_size))
        × ((page_rows l p ≡ []) ↔ (total_pages l ≤ p))
  unfolding total_pages
  page_rows_lem l p = (
    length-page_rows l p,
    (
      (λ e. omega (arith, length-page_rows l p, ap length e)),
      (λ h. eq-nil_of_length (page_rows l p) (omega (arith, length-page_rows l p))),
    ),
  )
