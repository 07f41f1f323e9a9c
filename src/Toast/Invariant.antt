-- ===== src/Toast/Invariant.antt =====
-- What holds of the notifications of frontend/src/components/Toast.tsx in every order of events.
use migration_safety_engine.Toast.Provider.{
  Provider, Toast, ToastType, toast, dismiss, expire, without,
}
use migration_safety_engine.Toast.Schedule.{
  here, next, All-map, Distinct-append, HasOtherId, IsValid, Reach, Step, contains-append,
  contains-append_last, contains-filter, without-Distinct, without-HasOtherId, contains, show, next,
  close, fire, All-both,
}
use migration_safety_engine.Prelude.{
  All, All-append, All-filter, List, Text, [], arith, false, filter, not, refl, true, ℕ, ◌++◌, ◌+◌,
  ◌<◌, ◌==◌, ◌∷◌, ◌≡◌,
}

toast-IsValid :
    (kind : ToastType) (message : Text) (p : Provider) → IsValid p → IsValid (toast kind message p)
unfolding toast
toast-IsValid kind message p v =
    let t : Toast = record { id = p.next_id; kind = kind; message = message } in
    record {
      used_ids =
          All-append (λ u. u.id < p.next_id + 1) p.toasts (t ∷ [])
            (All-map (λ u. u.id < p.next_id) (λ u. u.id < p.next_id + 1) p.toasts
              (λ u h. omega arith) v.used_ids)
            (omega arith, tt);
      used_timers =
          All-append (λ i. i < p.next_id + 1) p.timers (p.next_id ∷ [])
            (All-map (λ i. i < p.next_id) (λ i. i < p.next_id + 1) p.timers (λ i h. omega arith)
              v.used_timers)
            (omega arith, tt);
      distinct = Distinct-append p.toasts t v.used_ids v.distinct;
      timed =
          All-append (λ u. contains u.id (p.timers ++ p.next_id ∷ []) ≡ true) p.toasts (t ∷ [])
            (All-map (λ u. contains u.id p.timers ≡ true)
              (λ u. contains u.id (p.timers ++ p.next_id ∷ []) ≡ true) p.toasts
              (λ u h. contains-append u.id p.timers (p.next_id ∷ []) h) v.timed)
            (contains-append_last p.next_id p.timers, tt);
    }

dismiss-IsValid : (id : ℕ) (p : Provider) → IsValid p → IsValid (dismiss id p)
unfolding dismiss without
dismiss-IsValid id p v = record {
  used_ids = All-filter _ (λ t. not (t.id == id)) p.toasts v.used_ids;
  used_timers = v.used_timers;
  distinct = without-Distinct id p.toasts v.distinct;
  timed = All-filter _ (λ t. not (t.id == id)) p.toasts v.timed;
}

timed-filter :
    (id : ℕ) (timers : List ℕ) (ts : List Toast)
    → All (HasOtherId id) ts
    → All (λ t. contains t.id timers ≡ true) ts
    → All (λ t. contains t.id (filter (λ i. not (i == id)) timers) ≡ true) ts
timed-filter id timers [] h k = tt
timed-filter id timers (t ∷ ts) h k =
    (contains-filter t.id id timers h.0 k.0, timed-filter id timers ts h.1 k.1)

expire-IsValid : (id : ℕ) (p : Provider) → IsValid p → IsValid (expire id p)
unfolding expire without
expire-IsValid id p v = record {
  used_ids = All-filter _ (λ t. not (t.id == id)) p.toasts v.used_ids;
  used_timers = All-filter _ (λ i. not (i == id)) p.timers v.used_timers;
  distinct = without-Distinct id p.toasts v.distinct;
  timed =
      timed-filter id p.timers (without id p.toasts) (without-HasOtherId id p.toasts)
        (All-filter _ (λ t. not (t.id == id)) p.toasts v.timed);
}

Step-IsValid : {p q : Provider} → Step p q → IsValid p → IsValid q
Step-IsValid (show kind message p) v = toast-IsValid kind message p v
Step-IsValid (close id p) v = dismiss-IsValid id p v
Step-IsValid (fire id p pending) v = expire-IsValid id p v

-- In every state that can be reached, the notifications on the screen have distinct ids that were
-- given out before, and each has a timer pending that will remove it.
pub Reach-IsValid : {p q : Provider} → IsValid p → Reach p q → IsValid q
Reach-IsValid v here = v
Reach-IsValid v (next r s) = Step-IsValid s (Reach-IsValid v r)

-- The id was given out, and no notification on the screen has it.
abbrev pub IsGone : ℕ → Provider → Type 0
IsGone id p = (id < p.next_id) × All (HasOtherId id) p.toasts

Step-IsGone : (id : ℕ) {p q : Provider} → Step p q → IsGone id p → IsGone id q
unfolding toast dismiss expire without
Step-IsGone id (show kind message p) g =
    (omega arith, All-append (HasOtherId id) p.toasts _ g.1 ((λ e. omega arith), tt))
Step-IsGone id (close j p) g = (g.0, All-filter (HasOtherId id) (λ t. not (t.id == j)) p.toasts g.1)
Step-IsGone id (fire j p pending) g =
    (g.0, All-filter (HasOtherId id) (λ t. not (t.id == j)) p.toasts g.1)

Reach-IsGone : (id : ℕ) {p q : Provider} → IsGone id p → Reach p q → IsGone id q
Reach-IsGone id g here = g
Reach-IsGone id g (next r s) = Step-IsGone id s (Reach-IsGone id g r)

-- A notification that the user dismissed never comes back, whatever happens afterwards.
pub dismiss-IsGone :
    (id : ℕ) (p q : Provider)
    → id < p.next_id
    → Reach (dismiss id p) q
    → All (HasOtherId id) q.toasts
unfolding dismiss
dismiss-IsGone id p q h r =
    (Reach-IsGone id {p = dismiss id p} (h, without-HasOtherId id p.toasts) r).1

-- The pending timers fire, one after the other.
unfoldable pub fire_all : List ℕ → Provider → Provider
unfolding expire
fire_all [] p = p
fire_all (id ∷ ids) p = fire_all ids (expire id p)

fire_all-All :
    (P : Toast → Type 0) (ids : List ℕ) (p : Provider)
    → All P p.toasts
    → All P (fire_all ids p).toasts
unfolding fire_all without
fire_all-All P [] p h = h
fire_all-All P (id ∷ ids) p h =
    fire_all-All P ids (expire id p) (All-filter P (λ t. not (t.id == id)) p.toasts h)

none_contained : (ts : List Toast) → All (λ t. contains t.id [] ≡ false) ts
none_contained [] = tt
none_contained (t ∷ ts) = (refl, none_contained ts)

fire_all-removes :
    (ids : List ℕ) (p : Provider) → All (λ t. contains t.id ids ≡ false) (fire_all ids p).toasts
unfolding fire_all
fire_all-removes [] p = none_contained p.toasts
fire_all-removes (id ∷ ids) p =
    All-both (HasOtherId id) (λ t. contains t.id ids ≡ false)
      (λ t. contains t.id (id ∷ ids) ≡ false) (fire_all ids (expire id p)).toasts
      (λ t other later. ground arith)
      (fire_all-All (HasOtherId id) ids (expire id p)
        (unfold expire in without-HasOtherId id p.toasts))
      (fire_all-removes ids (expire id p))

none_left :
    (ids : List ℕ) (ts : List Toast)
    → All (λ t. contains t.id ids ≡ true) ts
    → All (λ t. contains t.id ids ≡ false) ts
    → ts ≡ []
none_left ids [] h k = refl
none_left ids (t ∷ ts) h k = ground arith

-- Once every pending timer has fired, no notification is left.
pub fire_all-toasts : (p : Provider) → IsValid p → (fire_all p.timers p).toasts ≡ []
fire_all-toasts p v =
    none_left p.timers (fire_all p.timers p).toasts
      (fire_all-All (λ t. contains t.id p.timers ≡ true) p.timers p v.timed)
      (fire_all-removes p.timers p)
