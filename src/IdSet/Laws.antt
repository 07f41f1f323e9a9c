-- ===== src/IdSet/Laws.antt =====
-- Which members a set has after each operation.
use migration_safety_engine.IdSet.Defs.{IdSet, insert_all, remove_all, has, insert, remove}
use migration_safety_engine.Prelude.{
  Bool-cases, List, Text, [], arith, inl, inr, not, refl, text_eq, text_eq_iff, ◌&&◌, ◌++◌, ◌||◌,
  ◌∷◌, ◌≡◌,
}

has-append : (x : Text) (s t : IdSet) → has x (s ++ t) ≡ (has x s || has x t)
unfolding has
has-append x [] t = refl
has-append x (j ∷ s) t = ground (arith, has-append x s t)

pub has-insert : (x id : Text) (s : IdSet) → has x (insert id s) ≡ (text_eq id x || has x s)
unfolding insert
has-insert x id s = elim (Bool-cases (has id s)) [
  | inl present ↦ rw present (elim (Bool-cases (text_eq id x)) [
    | inl same ↦ rw same (let e : id ≡ x = (text_eq_iff id x).0 same in rw (← e) present)
    | inr other ↦ rw other refl
  ])
  | inr absent ↦ rw absent (rw (has-append x s (id ∷ [])) (unfold has in ground arith))
]

pub has-remove : (x id : Text) (s : IdSet) → has x (remove id s) ≡ (not (text_eq id x) && has x s)
unfolding has remove
has-remove x id [] = ground arith
has-remove x id (j ∷ s) =
    ground (arith, has-remove x id s, text_eq_iff id x, text_eq_iff j id, text_eq_iff j x)

pub has-insert_all :
    (x : Text) (ids : List Text) (s : IdSet) → has x (insert_all ids s) ≡ (has x ids || has x s)
unfolding insert_all
has-insert_all x [] s = unfold has in refl
has-insert_all x (id ∷ ids) s =
    rw (has-insert_all x ids (insert id s)) (rw (has-insert x id s) (unfold has in ground arith))

pub has-remove_all :
    (x : Text) (ids : List Text) (s : IdSet)
    → has x (remove_all ids s) ≡ (not (has x ids) && has x s)
unfolding remove_all
has-remove_all x [] s = unfold has in refl
has-remove_all x (id ∷ ids) s =
    rw (has-remove_all x ids (remove id s)) (rw (has-remove x id s) (unfold has in ground arith))
