-- ===== src/Toast/Schedule.antt =====
-- All that can happen to the notifications of frontend/src/components/Toast.tsx, in any order: the
-- program shows one, the user dismisses one, a pending timer fires.
use migration_safety_engine.Toast.Provider.{
  Provider, Toast, ToastType, toast, without, dismiss, expire,
}
use migration_safety_engine.Prelude.{
  All, All-append, All-filter, Bool, Bool-cases, List, Text, [], any, arith, filter, inl, inr, not,
  true, ℕ, ◌++◌, ◌<◌, ◌==◌, ◌∷◌, ◌≡◌, ◌≢◌,
}

abbrev pub contains : ℕ → List ℕ → Bool
contains a = any (λ b. b == a)

pub data Step : Provider → Provider → Type 0 where
  show : (kind : ToastType) (message : Text) (p : Provider) → Step p (toast kind message p)
  close : (id : ℕ) (p : Provider) → Step p (dismiss id p)
  fire : (id : ℕ) (p : Provider) → contains id p.timers ≡ true → Step p (expire id p)

pub data Reach (p : Provider) : Provider → Type 0 where
  here : Reach p p
  next : {q r : Provider} → Reach p q → Step q r → Reach p r

abbrev pub HasOtherId : ℕ → Toast → Type 0
HasOtherId id t = t.id ≢ id

abbrev pub Distinct : List Toast → Type 0
Distinct [] = Unit
Distinct (t ∷ ts) = All (HasOtherId t.id) ts × Distinct ts

pub record IsValid (p : Provider) : Type 0 where
  pub used_ids : All (λ t. t.id < p.next_id) p.toasts
  pub used_timers : All (λ i. i < p.next_id) p.timers
  pub distinct : Distinct p.toasts
  pub timed : All (λ t. contains t.id p.timers ≡ true) p.toasts

pub All-map {ℓ κ} :
    {A : Type ℓ} (P Q : A → Type κ) (xs : List A) → ((x : A) → P x → Q x) → All P xs → All Q xs
All-map P Q [] f h = tt
All-map P Q (x ∷ xs) f h = (f x h.0, All-map P Q xs f h.1)

pub All-both {ℓ κ} :
    {A : Type ℓ} (P Q R : A → Type κ) (xs : List A)
    → ((x : A) → P x → Q x → R x)
    → All P xs
    → All Q xs
    → All R xs
All-both P Q R [] f h k = tt
All-both P Q R (x ∷ xs) f h k = (f x h.0 k.0, All-both P Q R xs f h.1 k.1)

pub contains-append : (a : ℕ) (xs ys : List ℕ) → contains a xs ≡ true → contains a (xs ++ ys) ≡ true
contains-append a [] ys h = cc
contains-append a (x ∷ xs) ys h = ground (arith, contains-append a xs ys)

pub contains-append_last : (a : ℕ) (xs : List ℕ) → contains a (xs ++ a ∷ []) ≡ true
contains-append_last a [] = ground arith
contains-append_last a (x ∷ xs) = ground (arith, contains-append_last a xs)

pub contains-filter :
    (a id : ℕ) (xs : List ℕ)
    → a ≢ id
    → contains a xs ≡ true
    → contains a (filter (λ i. not (i == id)) xs) ≡ true
contains-filter a id [] ne h = cc
contains-filter a id (x ∷ xs) ne h = ground (arith, contains-filter a id xs ne)

pub Distinct-append :
    (ts : List Toast) (t : Toast)
    → All (λ u. u.id < t.id) ts
    → Distinct ts
    → Distinct (ts ++ t ∷ [])
Distinct-append [] t h d = (tt, tt)
Distinct-append (u ∷ ts) t h d = (
  All-append (HasOtherId u.id) ts (t ∷ []) d.0 ((λ e. omega arith), tt),
  Distinct-append ts t h.1 d.1,
)

pub without-HasOtherId : (id : ℕ) (ts : List Toast) → All (HasOtherId id) (without id ts)
unfolding without
without-HasOtherId id [] = tt
without-HasOtherId id (t ∷ ts) = elim (Bool-cases (t.id == id)) [
  | inl same ↦ rw same (without-HasOtherId id ts)
  | inr other ↦ rw other ((λ e. ground arith), without-HasOtherId id ts)
]

pub without-Distinct : (id : ℕ) (ts : List Toast) → Distinct ts → Distinct (without id ts)
unfolding without
without-Distinct id [] d = tt
without-Distinct id (t ∷ ts) d = elim (Bool-cases (t.id == id)) [
  | inl same ↦ rw same (without-Distinct id ts d.1)
  | inr other ↦
      rw other
        (All-filter (HasOtherId t.id) (λ u. not (u.id == id)) ts d.0, without-Distinct id ts d.1)
]
