-- ===== src/Toast/Provider.antt =====
-- The state of `ToastProvider` with the counter `nextId` of its module, and its operations. A call of
-- `setTimeout` adds a pending timer, which holds the id that its callback removes.
use migration_safety_engine.Prelude.{List, Text, [], filter, not, ℕ, ◌++◌, ◌+◌, ◌==◌, ◌∷◌}

pub data ToastType : Type 0 where
  success error info : ToastType

pub record Toast : Type 0 where
  pub id : ℕ
  pub kind : ToastType
  pub message : Text

pub record Provider : Type 0 where
  pub next_id : ℕ
  pub toasts : List Toast
  pub timers : List ℕ

abbrev pub initial : Provider
initial = record { next_id = 0; toasts = []; timers = [] }

-- `prev.filter(t => t.id !== id)`
unfoldable pub without : ℕ → List Toast → List Toast
without id = filter (λ t. not (t.id == id))

unfoldable pub toast : ToastType → Text → Provider → Provider
toast kind message p = record {
  next_id = p.next_id + 1;
  toasts = p.toasts ++ record { id = p.next_id; kind = kind; message = message } ∷ [];
  timers = p.timers ++ p.next_id ∷ [];
}

unfoldable pub dismiss : ℕ → Provider → Provider
unfolding without
dismiss id p = record p { toasts = without id p.toasts }

-- the callback of the timer that holds `id`; the runtime forgets the timer
unfoldable pub expire : ℕ → Provider → Provider
unfolding without
expire id p = record p {
  toasts = without id p.toasts;
  timers = filter (λ i. not (i == id)) p.timers;
}
