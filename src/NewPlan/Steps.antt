-- ===== src/NewPlan/Steps.antt =====
-- The list of canary steps that frontend/src/pages/NewPlan.tsx reads from its text field, with the
-- `parseInt` of the language. A number of 2^53 or more is not rounded here; the filter drops it.
use mathlib.Core.Option
use migration_safety_engine.Prelude.{
  List, Option, Text, [], if◌then◌else◌, leb, ltb, map, none, some, split, suc, trim, trim_start,
  zero, ℕ, ◌&&◌, ◌*◌, ◌+◌, ◌-◌, ◌==◌, ◌||◌, ◌∷◌,
}

pub data ℤ : Type 0 where
  pos negsuc : ℕ → ℤ

abbrev pub negate : ℕ → ℤ
negate zero = pos 0
negate (suc n) = negsuc n

-- the value of a digit of bases up to 36, or a number that is no digit
abbrev digit_value : ℕ → ℕ
digit_value c =
    if leb b'0' c && leb c b'9'
    then c - b'0'
    else if leb b'a' c && leb c b'z'
    then c - b'a' + 10
    else if leb b'A' c && leb c b'Z'
    then c - b'A' + 10
    else 36

unfoldable pub digit_of : ℕ → ℕ → Option ℕ
digit_of radix c = if ltb (digit_value c) radix then some (digit_value c) else none

-- the digits that follow a value already read, up to the first character that is none
unfoldable pub read_from : ℕ → ℕ → Text → ℕ
unfolding digit_of
read_from radix v [] = v
read_from radix v (c ∷ s) = elim (digit_of radix c) [
  | none ↦ v
  | some d ↦ read_from radix (v * radix + d) s
]

unfoldable pub read_digits : ℕ → Text → Option ℕ
unfolding read_from
read_digits radix [] = none
read_digits radix (c ∷ s) = elim (digit_of radix c) [
  | none ↦ none
  | some d ↦ some (read_from radix d s)
]

-- the prefix `0x` or `0X`
abbrev pub read_number : Text → Option ℕ
read_number [] = none
read_number (c ∷ []) = read_digits 10 (c ∷ [])
read_number (c ∷ d ∷ s) =
    if c == b'0' && (d == b'x' || d == b'X') then read_digits 16 s else read_digits 10 (c ∷ d ∷ s)

abbrev pub read_signed : Text → Option ℤ
read_signed [] = none
read_signed (c ∷ s) =
    if c == 45
    then Option.map negate (read_number s)
    else if c == 43
    then Option.map pos (read_number s)
    else Option.map pos (read_number (c ∷ s))

-- `parseInt(s)`; NaN is `none`
unfoldable pub parse_int : Text → Option ℤ
unfolding read_digits
parse_int s = read_signed (trim_start s)

-- the filter `n > 0 && n <= 100`
unfoldable pub keep_steps : List (Option ℤ) → List ℕ
keep_steps [] = []
keep_steps (none ∷ ns) = keep_steps ns
keep_steps (some (negsuc n) ∷ ns) = keep_steps ns
keep_steps (some (pos n) ∷ ns) =
    let rest = keep_steps ns in if ltb 0 n && leb n 100 then n ∷ rest else rest

unfoldable pub parse_steps : Text → List ℕ
unfolding parse_int keep_steps
parse_steps text = keep_steps (map (λ s. parse_int (trim s)) (split b',' text))
