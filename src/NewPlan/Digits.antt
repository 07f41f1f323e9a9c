-- ===== src/NewPlan/Digits.antt =====
-- What `parseInt` reads from the decimal digits of a number, and what `trim` leaves of them.
use migration_safety_engine.Api.Uri.{digits_from, decimal}
use migration_safety_engine.NewPlan.Steps.{
  digit_of, parse_int, read_digits, read_from, read_number, pos,
}
use migration_safety_engine.Prelude.{
  All, Bool-cases, Lacks, Text, [], arith, false, inl, inr, is_empty, is_space, ltb, refl, some,
  suc, trim, trim_end, trim_start, zero, ℕ, ◌%◌, ◌&&◌, ◌*◌, ◌+◌, ◌-◌, ◌/◌, ◌<◌, ◌==◌, ◌||◌, ◌∷◌,
  ◌≡◌, ◌≤◌,
}

abbrev pub IsDigit : ℕ → Type 0
IsDigit c = (48 ≤ c) × (c ≤ 57)

digits_from-IsDigit :
    (fuel n : ℕ) (acc : Text) → All IsDigit acc → All IsDigit (digits_from fuel n acc)
unfolding digits_from
digits_from-IsDigit zero n acc h = h
digits_from-IsDigit (suc fuel) n acc h =
    let here : IsDigit (b'0' + n % 10) = (omega arith, omega arith) in
    elim (Bool-cases (ltb n 10)) [
      | inl small ↦ rw small (here, h)
      | inr large ↦ rw large (digits_from-IsDigit fuel (n / 10) ((b'0' + n % 10) ∷ acc) (here, h))
    ]

pub decimal-IsDigit : (n : ℕ) → All IsDigit (decimal n)
unfolding decimal
decimal-IsDigit n = digits_from-IsDigit (suc n) n [] tt

digit_of-IsDigit : (c : ℕ) → IsDigit c → digit_of 10 c ≡ some (c - 48)
unfolding digit_of
digit_of-IsDigit c h = ground arith

read_from_digit :
    (v d c : ℕ) (s : Text)
    → digit_of 10 c ≡ some d
    → read_from 10 v (c ∷ s) ≡ read_from 10 (v * 10 + d) s
unfolding read_from
read_from_digit v d c s h = rw (h, read_from) refl

read_from-digits_from :
    (fuel n : ℕ) (acc : Text)
    → n < fuel
    → read_from 10 0 (digits_from fuel n acc) ≡ read_from 10 n acc
unfolding digits_from read_from
read_from-digits_from zero n acc h = absurd (omega arith)
read_from-digits_from (suc fuel) n acc h =
    let digit : digit_of 10 (b'0' + n % 10) ≡ some (n % 10) =
      ground (arith, digit_of-IsDigit (b'0' + n % 10) (omega arith, omega arith)) in
    elim (Bool-cases (ltb n 10)) [
      | inl small ↦
          let same : 0 * 10 + n % 10 ≡ n = ground arith in
          rw small (rw (read_from_digit 0 (n % 10) (b'0' + n % 10) acc digit) (rw same refl))
      | inr large ↦
          let same : n / 10 * 10 + n % 10 ≡ n = omega arith in
          rw large (
            rw (read_from-digits_from fuel (n / 10) ((b'0' + n % 10) ∷ acc) (ground arith))
              (rw (read_from_digit (n / 10) (n % 10) (b'0' + n % 10) acc digit) (rw same refl)))
    ]

trim_start-IsDigit : (s : Text) → All IsDigit s → trim_start s ≡ s
unfolding trim_start
trim_start-IsDigit [] h = refl
trim_start-IsDigit (c ∷ s) h = unfold is_space in ground arith

trim_end-IsDigit : (s : Text) → All IsDigit s → trim_end s ≡ s
unfolding trim_end
trim_end-IsDigit [] h = refl
trim_end-IsDigit (c ∷ []) h = unfold is_space in ground arith
trim_end-IsDigit (c ∷ d ∷ s) h = rw (trim_end-IsDigit (d ∷ s) h.1) refl

pub trim-IsDigit : (s : Text) → All IsDigit s → trim s ≡ s
unfolding trim
trim-IsDigit s h = rw (trim_start-IsDigit s h) (trim_end-IsDigit s h)

read_digits-IsDigit :
    (c : ℕ) (s : Text)
    → All IsDigit (c ∷ s)
    → read_digits 10 (c ∷ s) ≡ some (read_from 10 0 (c ∷ s))
unfolding read_digits read_from
read_digits-IsDigit c s h =
    let start : 0 * 10 + (c - 48) ≡ c - 48 = omega arith in
    rw (digit_of-IsDigit c h.0, read_digits, read_from) (rw start refl)

read_number-IsDigit :
    (c : ℕ) (s : Text) → All IsDigit (c ∷ s) → read_number (c ∷ s) ≡ some (read_from 10 0 (c ∷ s))
read_number-IsDigit c [] h = read_digits-IsDigit c [] h
read_number-IsDigit c (d ∷ s) h =
    let no_prefix : (c == b'0' && (d == b'x' || d == b'X')) ≡ false = ground arith in
    rw no_prefix (read_digits-IsDigit c (d ∷ s) h)

parse_int-IsDigit :
    (c : ℕ) (s : Text)
    → All IsDigit (c ∷ s)
    → parse_int (c ∷ s) ≡ some (pos (read_from 10 0 (c ∷ s)))
unfolding parse_int
parse_int-IsDigit c s h =
    let no_minus : (c == 45) ≡ false = ground arith in
    let no_plus : (c == 43) ≡ false = ground arith in
    rw (trim_start-IsDigit (c ∷ s) h) (rw (no_minus, no_plus) (rw (read_number-IsDigit c s h) refl))

digits_from_not_empty :
    (fuel n c : ℕ) (acc : Text) → is_empty (digits_from fuel n (c ∷ acc)) ≡ false
unfolding digits_from
digits_from_not_empty zero n c acc = refl
digits_from_not_empty (suc fuel) n c acc = elim (Bool-cases (ltb n 10)) [
  | inl small ↦ rw small refl
  | inr large ↦ rw large (digits_from_not_empty fuel (n / 10) (b'0' + n % 10) (c ∷ acc))
]

decimal_not_empty : (n : ℕ) → is_empty (decimal n) ≡ false
unfolding decimal digits_from
decimal_not_empty n = elim (Bool-cases (ltb n 10)) [
  | inl small ↦ rw small refl
  | inr large ↦ rw large (digits_from_not_empty n (n / 10) (b'0' + n % 10) [])
]

parse_int_of_digits :
    (s : Text) → is_empty s ≡ false → All IsDigit s → parse_int s ≡ some (pos (read_from 10 0 s))
parse_int_of_digits [] e h = absurd (ground arith)
parse_int_of_digits (c ∷ s) e h = parse_int-IsDigit c s h

-- `parseInt` reads back the decimal digits of a number.
pub parse_int-decimal : (n : ℕ) → parse_int (decimal n) ≡ some (pos n)
unfolding decimal
parse_int-decimal n =
    rw (parse_int_of_digits (decimal n) (decimal_not_empty n) (decimal-IsDigit n))
      (rw (read_from-digits_from (suc n) n [] (omega arith)) (unfold read_from in refl))

pub digits-Lacks : (s : Text) → All IsDigit s → Lacks b',' s
digits-Lacks [] h = tt
digits-Lacks (c ∷ s) h = (omega (arith, h.0), digits-Lacks s h.1)
