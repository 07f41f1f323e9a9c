-- ===== src/NewPlan/Columns.antt =====
-- The columns of the form of frontend/src/pages/NewPlan.tsx.
use mathlib.Core.Option
use migration_safety_engine.IdSet.{has}
use migration_safety_engine.Types.Records.{ColumnSpec}
use migration_safety_engine.NewPlan.Form.{
  Change, apply_change, check_drop, remove_column, update_column,
}
use migration_safety_engine.Prelude.{
  Bool, Bool-cases, List, Text, [], arith, false, filter, get_elem?, if◌then◌else◌, inl, inr,
  length, not, refl, suc, text_eq, text_eq_iff, true, zero, ℕ, ◌++◌, ◌+◌, ◌<◌, ◌==◌, ◌∷◌, ◌≡◌, ◌≤◌,
}

update_column_from :
    (i idx : ℕ) (change : Change) (columns : List ColumnSpec) (j : ℕ)
    → get_elem? (update_column i idx change columns) j ≡ (
        if i + j == idx
        then Option.map (apply_change change) (get_elem? columns j)
        else get_elem? columns j)
unfolding update_column
update_column_from i idx change [] j = elim (Bool-cases (i + j == idx)) [
  | inl e ↦ rw e refl
  | inr e ↦ rw e refl
]
update_column_from i idx change (c ∷ columns) zero = elim (Bool-cases (i == idx)) [
  | inl e ↦ let e' : (i + 0 == idx) ≡ true = ground arith in rw (e, e') refl
  | inr e ↦ let e' : (i + 0 == idx) ≡ false = ground arith in rw (e, e') refl
]
update_column_from i idx change (c ∷ columns) (suc j) =
    let moved : i + suc j ≡ i + 1 + j = omega arith in
    elim (Bool-cases (i == idx)) [
      | inl e ↦ rw e (rw moved (update_column_from (i + 1) idx change columns j))
      | inr e ↦ rw e (rw moved (update_column_from (i + 1) idx change columns j))
    ]

-- An edit of a column changes that column and no other, and adds none.
pub get_elem-update_column :
    (idx : ℕ) (change : Change) (columns : List ColumnSpec) (j : ℕ)
    → get_elem? (update_column 0 idx change columns) j ≡ (
        if j == idx
        then Option.map (apply_change change) (get_elem? columns j)
        else get_elem? columns j)
get_elem-update_column idx change columns j =
    let same : 0 + j ≡ j = omega arith in rw same at (update_column_from 0 idx change columns j)

pub length-update_column :
    (i idx : ℕ) (change : Change) (columns : List ColumnSpec)
    → length (update_column i idx change columns) ≡ length columns
unfolding update_column
length-update_column i idx change [] = refl
length-update_column i idx change (c ∷ columns) =
    ground (arith, length-update_column (i + 1) idx change columns)

remove_column_past :
    (i idx : ℕ) (columns : List ColumnSpec) → idx < i → remove_column i idx columns ≡ columns
unfolding remove_column
remove_column_past i idx [] h = refl
remove_column_past i idx (c ∷ columns) h =
    ground (arith, remove_column_past (i + 1) idx columns (omega arith))

pub length-remove_column :
    (i idx : ℕ) (columns : List ColumnSpec)
    → length columns ≤ length (remove_column i idx columns) + 1
unfolding remove_column
length-remove_column i idx [] = omega arith
length-remove_column i idx (c ∷ columns) = elim (Bool-cases (i == idx)) [
  | inl e ↦ rw e (rw (remove_column_past (i + 1) idx columns (ground arith)) (omega arith))
  | inr e ↦ rw e (omega (arith, length-remove_column (i + 1) idx columns))
]

abbrev pub IsDistinct : List Text → Type 0
IsDistinct [] = Unit
IsDistinct (x ∷ xs) = (has x xs ≡ false) × IsDistinct xs

has-false_append :
    (x y : Text) (xs : List Text)
    → has x xs ≡ false
    → text_eq y x ≡ false
    → has x (xs ++ y ∷ []) ≡ false
unfolding has
has-false_append x y [] h e = ground arith
has-false_append x y (z ∷ xs) h e = ground (arith, has-false_append x y xs)

has-false-filter :
    (x : Text) (p : Text → Bool) (xs : List Text) → has x xs ≡ false → has x (filter p xs) ≡ false
unfolding has
has-false-filter x p [] h = h
has-false-filter x p (y ∷ xs) h = ground (arith, has-false-filter x p xs)

IsDistinct-append :
    (y : Text) (xs : List Text) → IsDistinct xs → has y xs ≡ false → IsDistinct (xs ++ y ∷ [])
unfolding has
IsDistinct-append y [] d h = (refl, tt)
IsDistinct-append y (x ∷ xs) d h = (
  has-false_append x y xs d.0 (ground (arith, text_eq_iff x y, text_eq_iff y x)),
  IsDistinct-append y xs d.1 (ground arith),
)

IsDistinct-filter : (p : Text → Bool) (xs : List Text) → IsDistinct xs → IsDistinct (filter p xs)
IsDistinct-filter p [] d = tt
IsDistinct-filter p (x ∷ xs) d = elim (Bool-cases (p x)) [
  | inl e ↦ rw e (has-false-filter x p xs d.0, IsDistinct-filter p xs d.1)
  | inr e ↦ rw e (IsDistinct-filter p xs d.1)
]

-- A click on a box keeps the drop list free of repetitions.
pub check_drop-IsDistinct :
    (name : Text) (xs : List Text)
    → IsDistinct xs
    → IsDistinct (check_drop name (not (has name xs)) xs)
unfolding check_drop
check_drop-IsDistinct name xs d = elim (Bool-cases (has name xs)) [
  | inl e ↦ rw e (IsDistinct-filter (λ n. not (text_eq n name)) xs d)
  | inr e ↦ rw e (IsDistinct-append name xs d e)
]
