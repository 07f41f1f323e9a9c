-- ===== src/Dashboard/Selection.antt =====
-- What the selection of frontend/src/pages/Dashboard.tsx holds after each operation.
use migration_safety_engine.Types.Records.{MigrationRecord}
use migration_safety_engine.Dashboard.Rows.{
  Rows, ids_of, toggle_select, prune, all_selected, toggle_select_all,
}
use migration_safety_engine.IdSet.{
  IdSet, has, remove, insert, has-insert, has-insert_all, has-remove, has-remove_all, insert_all,
  remove_all,
}
use migration_safety_engine.Prelude.{
  Bool, Bool-cases, List, Text, [], all, ap, arith, filter, inl, inr, length, length-filter, refl,
  sym, true, ◌&&◌, ◌==◌, ◌∙◌, ◌∷◌, ◌≡◌, if◌then◌else◌, not, text_eq, text_eq_iff, ◌<◌, ◌||◌, false,
}

filter_same {ℓ} :
    {A : Type ℓ} (p : A → Bool) (xs : List A) → length (filter p xs) ≡ length xs → filter p xs ≡ xs
filter_same p [] h = refl
filter_same p (x ∷ xs) h = elim (Bool-cases (p x)) [
  | inl kept ↦
      let same : length (filter p xs) ≡ length xs = ground arith in
      rw kept (ap (λ t. x ∷ t) (filter_same p xs same))
  | inr dropped ↦ absurd (ground (arith, length-filter p xs))
]

has-cons : (x j : Text) (s : IdSet) → has x (j ∷ s) ≡ (text_eq j x || has x s)
unfolding has
has-cons x j s = refl

has-filter :
    (x : Text) (ids : List Text) (s : IdSet)
    → has x (filter (λ id. has id ids) s) ≡ (has x ids && has x s)
has-filter x ids [] = unfold has in ground arith
has-filter x ids (j ∷ s) = ground (
  arith,
  has-filter x ids s,
  text_eq_iff j x,
  has-cons x j s,
  has-cons x j (filter (λ id. has id ids) s),
)

module _ {Num : Type 0} where
  -- After the effect on the filtered rows the selection holds exactly those of its ids that are shown.
  pub has-prune :
      (x : Text) (rows : Rows Num) (s : IdSet)
      → has x (prune rows s) ≡ (has x (ids_of rows) && has x s)
  unfolding prune
  has-prune x rows s =
      elim (Bool-cases (length (filter (λ id. has id (ids_of rows)) s) == length s)) [
        | inl same ↦ rw same (
            ap (has x) (sym (filter_same (λ id. has id (ids_of rows)) s (ground arith)))
            ∙ has-filter x (ids_of rows) s)
        | inr fewer ↦ rw fewer (has-filter x (ids_of rows) s)
      ]

-- Choosing a row a second time undoes the first, for that row and every other.
pub has-toggle_select_twice :
    (x id : Text) (s : IdSet) → has x (toggle_select id (toggle_select id s)) ≡ has x s
unfolding toggle_select
has-toggle_select_twice x id s = elim (Bool-cases (has id s)) [
  | inl chosen ↦ rw chosen (
      ground (
        arith,
        has-remove id id s,
        has-insert x id (remove id s),
        has-remove x id s,
        text_eq_iff id x,
        text_eq_iff id id,
      ))
  | inr free ↦ rw free (
      ground (
        arith,
        has-insert id id s,
        has-remove x id (insert id s),
        has-insert x id s,
        text_eq_iff id x,
        text_eq_iff id id,
      ))
]

module _ {Num : Type 0} where
  all-has :
      (rows : Rows Num) (s : IdSet)
      → ((x : Text) → has x (ids_of rows) ≡ true → has x s ≡ true)
      → all (λ m. has m.migration_id s) rows ≡ true
  all-has [] s h = refl
  all-has (m ∷ rows) s h =
      let own : has m.migration_id (m.migration_id ∷ ids_of rows) ≡ true = ground (
        arith,
        has-cons m.migration_id m.migration_id (ids_of rows),
        text_eq_iff m.migration_id m.migration_id,
      ) in
      rw (h m.migration_id own) (
        all-has rows s
          (λ x e. h x (rw (has-cons x m.migration_id (ids_of rows)) (rw e (ground arith)))))

  has-own_id :
      (m : MigrationRecord Num) (rows : Rows Num) → has m.migration_id (ids_of (m ∷ rows)) ≡ true
  has-own_id m rows = ground (
    arith,
    has-cons m.migration_id m.migration_id (ids_of rows),
    text_eq_iff m.migration_id m.migration_id,
  )

  all_selected_without :
      (m : MigrationRecord Num) (rows : Rows Num) (s : IdSet)
      → has m.migration_id s ≡ false
      → all_selected (m ∷ rows) s ≡ false
  unfolding all_selected
  all_selected_without m rows s h = rw h (ground arith)

  all_selected_with :
      (m : MigrationRecord Num) (rows : Rows Num) (s : IdSet)
      → all (λ r. has r.migration_id s) (m ∷ rows) ≡ true
      → all_selected (m ∷ rows) s ≡ true
  unfolding all_selected
  all_selected_with m rows s h = ground arith

  -- Where the page has a row that can be selected, the box above the rows flips: if not all of them
  -- were selected they are afterwards, and if all were, they are no longer all.
  pub all_selected-toggle_select_all :
      (rows : Rows Num) (s : IdSet)
      → 0 < length rows
      → all_selected rows (toggle_select_all rows s) ≡ not (all_selected rows s)
  unfolding toggle_select_all
  all_selected-toggle_select_all [] s h = absurd (omega arith)
  all_selected-toggle_select_all (m ∷ rows) s h =
      let ids : List Text = ids_of (m ∷ rows) in
      elim (Bool-cases (all_selected (m ∷ rows) s)) [
        | inl every ↦ rw every (
            all_selected_without m rows (remove_all ids s)
              (ground (arith, has-remove_all m.migration_id ids s, has-own_id m rows)))
        | inr some_left ↦ rw some_left (
            all_selected_with m rows (insert_all ids s) (
              all-has (m ∷ rows) (insert_all ids s)
                (λ x e. ground (arith, has-insert_all x ids s, e))))
      ]

  -- The box above the rows adds the ids of the page to the selection, or, if all were selected, takes
  -- them out; no other id is touched.
  pub has-toggle_select_all :
      (x : Text) (rows : Rows Num) (s : IdSet)
      → has x (toggle_select_all rows s) ≡ (
          if all_selected rows s
          then not (has x (ids_of rows)) && has x s
          else has x (ids_of rows) || has x s)
  unfolding toggle_select_all
  has-toggle_select_all x rows s = elim (Bool-cases (all_selected rows s)) [
    | inl every ↦ rw every (has-remove_all x (ids_of rows) s)
    | inr some_left ↦ rw some_left (has-insert_all x (ids_of rows) s)
  ]
