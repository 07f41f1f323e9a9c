-- ===== src/NewPlan/Canary.antt =====
-- The canary steps of frontend/src/pages/NewPlan.tsx: what was printed is read back.
use migration_safety_engine.NewPlan.Digits.{
  decimal-IsDigit, digits-Lacks, parse_int-decimal, trim-IsDigit,
}
use migration_safety_engine.Api.Uri.{decimal}
use migration_safety_engine.NewPlan.Steps.{keep_steps, parse_int, parse_steps, ℤ, pos}
use migration_safety_engine.Prelude.{
  All, List, Option, Text, [], arith, map, refl, some, split, trim, ℕ, ◌<◌, ◌∷◌, ◌≡◌, ◌≤◌, is_space,
  trim_end, trim_start, ◌++◌, Lacks, ap, push_head, split-Lacks, split-append, trim-space, ◌∙◌,
}

-- A percentage of the traffic.
abbrev pub IsStep : ℕ → Type 0
IsStep n = (0 < n) × (n ≤ 100)

-- The steps as the field shows them at first.
unfoldable pub print_steps : List ℕ → Text
print_steps [] = []
print_steps (n ∷ []) = decimal n
print_steps (n ∷ m ∷ steps) = decimal n ++ b',' ∷ b' ' ∷ print_steps (m ∷ steps)

parse_decimal : (n : ℕ) → parse_int (trim (decimal n)) ≡ some (pos n)
parse_decimal n = rw (trim-IsDigit (decimal n) (decimal-IsDigit n)) (parse_int-decimal n)

decimal-Lacks : (n : ℕ) → Lacks b',' (decimal n)
decimal-Lacks n = digits-Lacks (decimal n) (decimal-IsDigit n)

keep_steps_cons :
    (n : ℕ) (ns : List (Option ℤ)) → IsStep n → keep_steps (some (pos n) ∷ ns) ≡ n ∷ keep_steps ns
unfolding keep_steps
keep_steps_cons n ns h = ground arith

parts_of-space :
    (parts : List Text)
    → keep_steps (map (λ s. parse_int (trim s)) (push_head 32 parts))
      ≡ keep_steps (map (λ s. parse_int (trim s)) parts)
parts_of-space [] = unfold keep_steps parse_int trim trim_start trim_end is_space in refl
parts_of-space (s ∷ parts) = rw (trim-space s) refl

parse_steps-space : (s : Text) → parse_steps (32 ∷ s) ≡ parse_steps s
unfolding parse_steps split
parse_steps-space s = parts_of-space (split b',' s)

parse_steps_cons :
    (n : ℕ) (s : Text) → IsStep n → parse_steps (decimal n ++ b',' ∷ b' ' ∷ s) ≡ n ∷ parse_steps s
unfolding parse_steps
parse_steps_cons n s h = rw (split-append b',' (decimal n) (b' ' ∷ s) (decimal-Lacks n)) (
    rw (parse_decimal n) (
      keep_steps_cons n (map (λ p. parse_int (trim p)) (split b',' (b' ' ∷ s))) h
      ∙ ap (λ l. n ∷ l) (parse_steps-space s)))

-- Steps from 1 to 100, printed with a comma and a space between them, are read back as they were.
pub parse_steps-print_steps :
    (steps : List ℕ) → All IsStep steps → parse_steps (print_steps steps) ≡ steps
unfolding print_steps
parse_steps-print_steps [] h =
    unfold parse_steps split keep_steps parse_int trim trim_start trim_end in refl
parse_steps-print_steps (n ∷ []) h =
    unfold parse_steps in
    rw (split-Lacks b',' (decimal n) (decimal-Lacks n))
      (rw (parse_decimal n) (keep_steps_cons n [] h.0 ∙ unfold keep_steps in refl))
parse_steps-print_steps (n ∷ m ∷ steps) h =
    parse_steps_cons n (print_steps (m ∷ steps)) h.0
    ∙ ap (λ l. n ∷ l) (parse_steps-print_steps (m ∷ steps) h.1)
