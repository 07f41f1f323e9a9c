-- ===== src/Prelude/Scanning.antt =====
-- What the string methods return on a text whose separators are known.
use Prim.Native.Nat.{ℕ, suc, ◌+◌}
use mathlib.Core.Path.{◌≡◌, refl, ap}
use mathlib.Core.Logic.{◌≢◌, inl, inr}
use mathlib.Core.Bool.{false}
use mathlib.Core.List.{List, [], ◌∷◌, ◌++◌}
use mathlib.Core.Option.{none, some}
use native.Mathlib.Omega.{arith}
use migration_safety_engine.Prelude.Tests.{Bool-cases, ◌==◌}
use migration_safety_engine.Prelude.Lists.{length, take, drop, All}
use migration_safety_engine.Prelude.Strings.{
  Text, is_empty, index_of, split, is_space, trim_start, trim_end, trim, strip_last,
}

-- The character does not occur in the text.
abbrev pub Lacks : ℕ → Text → Type 0
Lacks c s = All (λ d. d ≢ c) s

-- `trim` leaves the text as it is.
abbrev pub IsTrimmed : Text → Type 0
IsTrimmed s = trim s ≡ s

module _ {ℓ} {A : Type ℓ} where
  pub take-append : (xs ys : List A) → take (length xs) (xs ++ ys) ≡ xs
  take-append [] ys = refl
  take-append (x ∷ xs) ys = ap (λ l. x ∷ l) (take-append xs ys)

  pub drop-append : (xs ys : List A) → drop (length xs) (xs ++ ys) ≡ ys
  drop-append [] ys = refl
  drop-append (x ∷ xs) ys = drop-append xs ys

  pub take_through : (xs ys : List A) (y : A) → take (length xs + 1) (xs ++ y ∷ ys) ≡ xs ++ y ∷ []
  take_through [] ys y = refl
  take_through (x ∷ xs) ys y =
      let step : suc (length xs) + 1 ≡ suc (length xs + 1) = omega arith in
      rw step (ap (λ l. x ∷ l) (take_through xs ys y))

  pub drop_past : (xs ys : List A) (y : A) → drop (length xs + 1) (xs ++ y ∷ ys) ≡ ys
  drop_past [] ys y = refl
  drop_past (x ∷ xs) ys y =
      let step : suc (length xs) + 1 ≡ suc (length xs + 1) = omega arith in
      rw step (drop_past xs ys y)

pub index_of-append : (c : ℕ) (s t : Text) → Lacks c s → index_of c (s ++ c ∷ t) ≡ some (length s)
unfolding index_of
index_of-append c [] t h = ground arith
index_of-append c (d ∷ s) t h = ground (arith, index_of-append c s t h.1)

pub index_of-Lacks : (c : ℕ) (s : Text) → Lacks c s → index_of c s ≡ none
unfolding index_of
index_of-Lacks c [] h = refl
index_of-Lacks c (d ∷ s) h = ground (arith, index_of-Lacks c s h.1)

pub split-Lacks : (c : ℕ) (s : Text) → Lacks c s → split c s ≡ s ∷ []
unfolding split
split-Lacks c [] h = refl
split-Lacks c (d ∷ s) h = ground (arith, split-Lacks c s h.1)

pub split-append : (c : ℕ) (s t : Text) → Lacks c s → split c (s ++ c ∷ t) ≡ s ∷ split c t
unfolding split
split-append c [] t h = ground arith
split-append c (d ∷ s) t h = ground (arith, split-append c s t h.1)

pub strip_last-append : (c : ℕ) (s : Text) → strip_last c (s ++ c ∷ []) ≡ s
unfolding strip_last
strip_last-append c [] = ground arith
strip_last-append c (d ∷ []) = ground arith
strip_last-append c (d ∷ e ∷ s) = ap (λ l. d ∷ l) (strip_last-append c (e ∷ s))

pub trim_end_keeps :
    (s : Text) (c : ℕ) (t : Text) → is_space c ≡ false → is_empty (trim_end (s ++ c ∷ t)) ≡ false
unfolding trim_end
trim_end_keeps [] c t h = ground arith
trim_end_keeps (d ∷ s) c t h = ground (arith, trim_end_keeps s c t h)

trim_start_keeps :
    (s : Text) (c : ℕ) (t : Text)
    → is_space c ≡ false
    → (r : Text) × (trim_start (s ++ c ∷ t) ≡ r ++ c ∷ t)
unfolding trim_start
trim_start_keeps [] c t h = ([], rw h refl)
trim_start_keeps (d ∷ s) c t h = elim (Bool-cases (is_space d)) [
  | inl space ↦ rw space (trim_start_keeps s c t h)
  | inr kept ↦ (d ∷ s, rw kept refl)
]

-- A text with a character that is no white space is not trimmed to nothing.
pub trim_keeps :
    (s : Text) (c : ℕ) (t : Text) → is_space c ≡ false → is_empty (trim (s ++ c ∷ t)) ≡ false
unfolding trim
trim_keeps s c t h = let (r, same) = trim_start_keeps s c t h in rw same (trim_end_keeps r c t h)

pub trim-space : (s : Text) → trim (32 ∷ s) ≡ trim s
unfolding trim
trim-space s = refl

pub Lacks-of_index_of : (c : ℕ) (s : Text) → index_of c s ≡ none → Lacks c s
unfolding index_of
Lacks-of_index_of c [] h = tt
Lacks-of_index_of c (d ∷ s) h = elim (Bool-cases (d == c)) [
  | inl e ↦ absurd (ground arith)
  | inr e ↦ (ground arith, Lacks-of_index_of c s (ground arith))
]
