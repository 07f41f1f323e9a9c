-- ===== src/Chart/Reals.antt =====
-- JavaScript numbers, with the operations that coordinates are computed with. The development has no
-- floating-point numbers: it takes them as this record.
use migration_safety_engine.Prelude.{Bool, Text, not, true, ◌<◌, ◌≡◌, ◌≤◌}
use Prim.Native.Nat.{ℕ}

pub record Reals : Type 1 where
  pub Num : Type 0
  -- the number of a literal `digits / 10 ^ places`, and of a natural number
  pub literal : (digits places : ℕ) → Num
  pub num : ℕ → Num
  -- `+`, `-`, `*`, `/` and `>`
  pub add : Num → Num → Num
  pub sub : Num → Num → Num
  pub mul : Num → Num → Num
  pub div : Num → Num → Num
  pub gt : Num → Num → Bool
  -- `Math.round`, `Math.PI` and `${n}`
  pub round : Num → Num
  pub pi : Num
  pub text_of : Num → Text

-- `<=`, as `!(a > b)`, for numbers that are not NaN
abbrev pub at_most : (R : Reals) → R.Num → R.Num → Bool
at_most R a b = not (R.gt a b)

-- The bound of the length of an array; up to it, natural numbers are represented exactly.
abbrev pub max_length : ℕ
max_length = 4294967296

-- What is used of the order of the finite numbers, those that are neither NaN nor infinite: rounding is
-- monotone, so that `+`, `*` and `/` are, and operations with 1 are exact. A sum or a product of finite
-- numbers can be infinite, but is not NaN.
pub record IsOrdered (R : Reals) (IsFinite : R.Num → Type 0) : Type 0 where
  pub num_finite : (n : ℕ) → n ≤ max_length → IsFinite (R.num n)
  pub num_le : (m n : ℕ) → m ≤ n → n ≤ max_length → at_most R (R.num m) (R.num n) ≡ true
  pub add_le :
      (a b c : R.Num)
      → IsFinite a
      → IsFinite b
      → IsFinite c
      → at_most R b c ≡ true
      → at_most R (R.add a b) (R.add a c) ≡ true
  pub le-add :
      (a b : R.Num)
      → IsFinite a
      → IsFinite b
      → at_most R (R.num 0) b ≡ true
      → at_most R a (R.add a b) ≡ true
  pub mul_le :
      (a b c : R.Num)
      → IsFinite a
      → IsFinite b
      → IsFinite c
      → at_most R (R.num 0) a ≡ true
      → at_most R b c ≡ true
      → at_most R (R.mul a b) (R.mul a c) ≡ true
  pub mul_nonneg :
      (a b : R.Num)
      → IsFinite a
      → IsFinite b
      → at_most R (R.num 0) a ≡ true
      → at_most R (R.num 0) b ≡ true
      → at_most R (R.num 0) (R.mul a b) ≡ true
  -- a share of a finite number
  pub mul_finite :
      (a b : R.Num)
      → IsFinite a
      → IsFinite b
      → at_most R (R.num 0) b ≡ true
      → at_most R b (R.num 1) ≡ true
      → IsFinite (R.mul a b)
  pub mul_one : (a : R.Num) → IsFinite a → R.mul a (R.num 1) ≡ a
  pub div_finite :
      (a : R.Num) (n : ℕ) → IsFinite a → 0 < n → n ≤ max_length → IsFinite (R.div a (R.num n))
  pub div_le :
      (a b : R.Num) (n : ℕ)
      → IsFinite a
      → IsFinite b
      → 0 < n
      → n ≤ max_length
      → at_most R a b ≡ true
      → at_most R (R.div a (R.num n)) (R.div b (R.num n)) ≡ true
  pub zero_div : (n : ℕ) → 0 < n → n ≤ max_length → R.div (R.num 0) (R.num n) ≡ R.num 0
  pub div_self : (n : ℕ) → 0 < n → n ≤ max_length → R.div (R.num n) (R.num n) ≡ R.num 1
