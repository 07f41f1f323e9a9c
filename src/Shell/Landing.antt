-- ===== src/Shell/Landing.antt =====
-- `BentoBackfill` and `BentoParity` of frontend/src/pages/LoginPage.tsx: a counter that can be paused,
-- and a list that is revealed one by one. `live` says that the interval of the effect runs.
use migration_safety_engine.Prelude.{
  All, Bool, Bool-cases, List, Option, Text, [], arith, false, if◌then◌else◌, inl, inr, leb, length,
  lit, ltb, map, min, none, not, refl, some, suc, true, zero, ℕ, ◌*◌, ◌++◌, ◌+◌, ◌<◌, ◌∷◌, ◌≡◌, ◌≤◌,
  ap, ltb→lt, ◌∙◌,
}

pub record BentoBackfill : Type 0 where
  pub paused : Bool
  pub rows : ℕ
  pub live : Bool

abbrev pub first_backfill : BentoBackfill
first_backfill = record { paused = false; rows = 67240; live = true }

-- the interval's function: `added` is `Math.floor(Math.random() * 200 + 100)`
unfoldable pub count_rows : ℕ → BentoBackfill → BentoBackfill
count_rows added s =
    if leb 100000 s.rows
    then record s { rows = 100000; live = false }
    else record s { rows = s.rows + added }

unfoldable pub tick_backfill : ℕ → BentoBackfill → BentoBackfill
unfolding count_rows
tick_backfill added s = if s.live then count_rows added s else s

-- the button, with the effect on `[paused]` after it
unfoldable pub toggle_pause : BentoBackfill → BentoBackfill
toggle_pause s = record s { paused = not s.paused; live = s.paused }

-- `pct`, in hundred-thousandths of the full width
unfoldable pub fill_share : BentoBackfill → ℕ
fill_share s = min s.rows 100000

pub data BackfillEvent : Type 0 where
  tick_with : ℕ → BackfillEvent
  click_pause : BackfillEvent

unfoldable pub play_backfill : List BackfillEvent → BentoBackfill → BentoBackfill
unfolding tick_backfill toggle_pause
play_backfill [] s = s
play_backfill (tick_with added ∷ es) s = play_backfill es (tick_backfill added s)
play_backfill (click_pause ∷ es) s = play_backfill es (toggle_pause s)

-- What the random numbers can be: `Math.random()` is at least 0 and less than 1, so a tick adds from
-- 100 to 300 rows (300 where the sum is rounded up).
abbrev pub IsAmount : ℕ → Type 0
IsAmount added = (100 ≤ added) × (added ≤ 300)

abbrev pub IsPlayable : BackfillEvent → Type 0
IsPlayable (tick_with added) = IsAmount added
IsPlayable click_pause = Unit

abbrev pub InRange : BentoBackfill → Type 0
InRange s = (67240 ≤ s.rows) × (s.rows < 100300)

tick_backfill-InRange :
    (added : ℕ) (s : BentoBackfill) → IsAmount added → InRange s → InRange (tick_backfill added s)
unfolding tick_backfill count_rows
tick_backfill-InRange added s h r = ground arith

-- However the counter is paused and resumed, it shows a number from 67,240 to 100,299.
pub play_backfill-InRange :
    (es : List BackfillEvent) (s : BentoBackfill)
    → All IsPlayable es
    → InRange s
    → InRange (play_backfill es s)
unfolding play_backfill toggle_pause
play_backfill-InRange [] s h r = r
play_backfill-InRange (tick_with added ∷ es) s h r =
    play_backfill-InRange es (tick_backfill added s) h.1 (tick_backfill-InRange added s h.0 r)
play_backfill-InRange (click_pause ∷ es) s h r = play_backfill-InRange es (toggle_pause s) h.1 r

last_tick :
    (added : ℕ) (s : BentoBackfill)
    → s.live ≡ true
    → 100000 ≤ s.rows
    → ((tick_backfill added s).live ≡ false) × ((tick_backfill added s).rows ≡ 100000)
unfolding tick_backfill count_rows
last_tick added s on full = ground arith

counted_tick :
    (added : ℕ) (s : BentoBackfill)
    → s.live ≡ true
    → leb 100000 s.rows ≡ false
    → ((tick_backfill added s).live ≡ true) × ((tick_backfill added s).rows ≡ s.rows + added)
unfolding tick_backfill count_rows
counted_tick added s on missing = ground arith

abbrev pub ticks : List ℕ → List BackfillEvent
ticks = map tick_with

idle_tick : (added : ℕ) (s : BentoBackfill) → s.live ≡ false → tick_backfill added s ≡ s
unfolding tick_backfill
idle_tick added s h = ap (λ b. if b then count_rows added s else s) h

stopped_stays :
    (amounts : List ℕ) (s : BentoBackfill) → s.live ≡ false → play_backfill (ticks amounts) s ≡ s
unfolding play_backfill
stopped_stays [] s h = refl
stopped_stays (added ∷ amounts) s h =
    ap (play_backfill (ticks amounts)) (idle_tick added s h) ∙ stopped_stays amounts s h

-- Whatever the random amounts are, an interval that runs ends by itself, at the latest with the tick
-- after as many as there are hundreds of rows missing, and leaves the counter at 100,000.
pub play_backfill-ends :
    (added : ℕ) (amounts : List ℕ) (s : BentoBackfill)
    → All IsAmount (added ∷ amounts)
    → s.live ≡ true
    → 100000 ≤ s.rows + 100 * length amounts
    → ((play_backfill (ticks (added ∷ amounts)) s).live ≡ false)
      × ((play_backfill (ticks (added ∷ amounts)) s).rows ≡ 100000)
unfolding play_backfill
play_backfill-ends added [] s h on enough = last_tick added s on (ground arith)
play_backfill-ends added (next ∷ amounts) s h on enough = elim (Bool-cases (leb 100000 s.rows)) [
  | inl full ↦
      let e = last_tick added s on (ground arith) in
      rw (stopped_stays (next ∷ amounts) (tick_backfill added s) e.0) e
  | inr missing ↦
      let e = counted_tick added s on missing in
      play_backfill-ends next amounts (tick_backfill added s) h.1 e.0
        (omega (arith, e.1, enough, h.0.0))
]

-- The list of the checks: how many are revealed, and whether the interval runs.
pub record BentoParity : Type 0 where
  pub revealed : ℕ
  pub interval : Bool

abbrev pub first_parity : BentoParity
first_parity = record { revealed = 0; interval = true }

-- `checks`: label and status
abbrev pub parity_checks : List (Text × Text)
parity_checks =
    (lit "Row Count", lit "Match")
    ∷ (lit "CRC32 Checksum", lit "Match")
    ∷ (lit "NULL Handling", lit "Match")
    ∷ (lit "Type Conversion", lit "Match")
    ∷ (lit "FK Integrity", lit "Verified")
    ∷ []

unfoldable pub reveal : BentoParity → BentoParity
reveal s =
    if not s.interval
    then s
    else if leb (length parity_checks) s.revealed
    then record s { interval = false }
    else record s { revealed = s.revealed + 1 }

unfoldable pub reveal_all : ℕ → BentoParity → BentoParity
unfolding reveal
reveal_all zero s = s
reveal_all (suc n) s = reveal_all n (reveal s)

-- The rows from the check `i` on: the label, and the status if the check is revealed.
unfoldable pub parity_rows : ℕ → List (Text × Text) → BentoParity → List (Text × Option Text)
parity_rows i [] s = []
parity_rows i ((label, status) ∷ cs) s =
    (label, if ltb i s.revealed then some (lit "[ " ++ (status ++ lit " ]")) else none)
    ∷ parity_rows (i + 1) cs s

unfoldable pub shows_score : BentoParity → Bool
shows_score s = leb (length parity_checks) s.revealed

idle_reveal : (s : BentoParity) → s.interval ≡ false → reveal s ≡ s
unfolding reveal
idle_reveal s h =
    ap
      (λ b.
        if not b
        then s
        else if leb (length parity_checks) s.revealed
        then record s { interval = false }
        else record s { revealed = s.revealed + 1 })
      h

idle_reveal_all : (n : ℕ) (s : BentoParity) → s.interval ≡ false → reveal_all n s ≡ s
unfolding reveal_all
idle_reveal_all zero s h = refl
idle_reveal_all (suc n) s h = ap (reveal_all n) (idle_reveal s h) ∙ idle_reveal_all n s h

last_reveal :
    (s : BentoParity)
    → s.interval ≡ true
    → 5 ≤ s.revealed
    → ((reveal s).interval ≡ false) × ((reveal s).revealed ≡ s.revealed)
unfolding reveal
last_reveal s on full = ground arith

next_reveal :
    (s : BentoParity)
    → s.interval ≡ true
    → s.revealed < 5
    → ((reveal s).interval ≡ true) × ((reveal s).revealed ≡ s.revealed + 1)
unfolding reveal
next_reveal s on few = ground arith

-- After n ticks the first n checks are revealed, or all five, and the interval runs until the sixth tick.
pub reveal_all_lem :
    (n : ℕ) (s : BentoParity)
    → s.interval ≡ true
    → s.revealed ≤ 5
    → ((reveal_all n s).revealed ≡ min 5 (s.revealed + n))
      × ((reveal_all n s).interval ≡ ltb (s.revealed + n) 6)
unfolding reveal_all
reveal_all_lem zero s on few = (ground arith, ground arith)
reveal_all_lem (suc n) s on few = elim (Bool-cases (ltb s.revealed 5)) [
  | inl more ↦
      let e = next_reveal s on (ground arith) in
      let ih = reveal_all_lem n (reveal s) e.0 (omega (arith, e.1, ltb→lt s.revealed 5 more)) in
      (ground (arith, ih.0, e.1), ground (arith, ih.1, e.1))
  | inr full ↦
      let e = last_reveal s on (ground arith) in
      rw (idle_reveal_all n (reveal s) e.0) (ground (arith, e.1, few), ground (arith, e.0, e.1))
]
