-- ===== src/Dashboard/Counter.antt =====
-- `StatNumber` of frontend/src/pages/Dashboard.tsx: a number that counts up to its value. The times of
-- the frames are whole milliseconds.
use migration_safety_engine.Prelude.{
  List, [], if◌then◌else◌, ltb, min, ℕ, ◌++◌, ◌-◌, ◌==◌, ◌∷◌, All, arith, ◌+◌, ◌<◌, ◌≡◌, ◌≤◌,
  Bool-cases, ap, false, inl, inr, refl, true, ◌∙◌,
}

-- A chain of animation frames: the value that it counts to, and its variable `start`.
pub record Chain : Type 0 where
  pub target : ℕ
  pub start : ℕ

-- The number on the screen, and the chains whose `step` waits for the next frame, the oldest first. The
-- effect has no cleanup: a chain goes on after the value has changed.
pub record StatNumber : Type 0 where
  pub displayed : ℕ
  pub chains : List Chain

abbrev pub first_number : StatNumber
first_number = record { displayed = 0; chains = [] }

-- the effect on `[numericVal]`
unfoldable pub value_changed : ℕ → StatNumber → StatNumber
value_changed numeric_val s =
    if numeric_val == 0
    then record s { displayed = 0 }
    else record s { chains = s.chains ++ record { target = numeric_val; start = 0 } ∷ [] }

-- `step`: `progress` is in five-hundredths
unfoldable pub started : ℕ → Chain → Chain
started ts c = if c.start == 0 then record c { start = ts } else c

unfoldable pub progress_of : ℕ → Chain → ℕ
progress_of ts c = min (ts - c.start) 500

-- The chains wait after a frame at `t0`, and the newest began then and counts to `v`.
pub data IsCounting (v t0 : ℕ) : List Chain → Type 0 where
  newest : (c : Chain) → c.target ≡ v → c.start ≡ t0 → IsCounting v t0 (c ∷ [])
  older :
      (c : Chain) (cs : List Chain)
      → 0 < c.start
      → c.start ≤ t0
      → IsCounting v t0 cs
      → IsCounting v t0 (c ∷ cs)

abbrev AllBegun : ℕ → List Chain → Type 0
AllBegun t0 = All (λ c. c.start ≤ t0)

started-start : (ts : ℕ) (c : Chain) → (started ts c).start ≡ (if c.start == 0 then ts else c.start)
unfolding started
started-start ts c = ground arith

started-target : (ts : ℕ) (c : Chain) → (started ts c).target ≡ c.target
unfolding started
started-target ts c = ground arith

module _ (floor_part : ℕ → ℕ → ℕ) where
  -- `Math.floor(progress * numericVal)` is `floor_part`, of the five-hundredths and the value.
  -- A frame calls the waiting steps in their order; a step that has not come to the end waits again.
  unfoldable pub frame_from : ℕ → List Chain → ℕ → ℕ × List Chain
  unfolding started progress_of
  frame_from ts [] displayed = (displayed, [])
  frame_from ts (c ∷ cs) displayed =
      let next = started ts c in
      let progress = progress_of ts next in
      let rest = frame_from ts cs (floor_part progress c.target) in
      if ltb progress 500 then (rest.0, next ∷ rest.1) else rest

  unfoldable pub frame : ℕ → StatNumber → StatNumber
  unfolding frame_from
  frame ts s =
      let r = frame_from ts s.chains s.displayed in record { displayed = r.0; chains = r.1 }

  unfoldable pub frames : List ℕ → StatNumber → StatNumber
  unfolding frame
  frames [] s = s
  frames (ts ∷ tss) s = frames tss (frame ts s)

  -- Whether or not an older chain waits again, the chains after it are what they are.
  frame_from-cons :
      (v t0 ts displayed : ℕ) (c : Chain) (cs : List Chain)
      → 0 < (started ts c).start
      → (started ts c).start ≤ t0
      → ((d : ℕ) → IsCounting v t0 (frame_from ts cs d).1)
      → IsCounting v t0 (frame_from ts (c ∷ cs) displayed).1
  unfolding frame_from
  frame_from-cons v t0 ts displayed c cs pos begun h =
      elim (Bool-cases (ltb (progress_of ts (started ts c)) 500)) [
        | inl waits ↦ rw waits (older (started ts c) _ pos begun (h _))
        | inr finished ↦ rw finished (h _)
      ]

  first_frame :
      (v t0 displayed : ℕ) (cs : List Chain)
      → 0 < t0
      → AllBegun t0 cs
      → IsCounting v t0 (frame_from t0 (cs ++ record { target = v; start = 0 } ∷ []) displayed).1
  first_frame v t0 displayed [] pos h =
      let e : min (t0 - t0) 500 ≡ 0 = omega arith in
      unfold frame_from progress_of started in rw e (newest _ refl refl)
  first_frame v t0 displayed (c ∷ cs) pos h =
      frame_from-cons v t0 t0 displayed c _ (ground (arith, started-start t0 c))
        (ground (arith, started-start t0 c, h.0)) (λ d. first_frame v t0 d cs pos h.1)

  later_frame :
      (v t0 ts displayed : ℕ) (cs : List Chain)
      → 0 < t0
      → ts < t0 + 500
      → IsCounting v t0 cs
      → IsCounting v t0 (frame_from ts cs displayed).1
  later_frame v t0 ts displayed _ pos early (newest c e f) =
      let begun : (started ts c).start ≡ t0 = ground (arith, started-start ts c) in
      let waits : ltb (progress_of ts (started ts c)) 500 ≡ true =
        unfold progress_of in ground (arith, begun) in
      unfold frame_from in rw waits (newest _ (started-target ts c ∙ e) begun)
  later_frame v t0 ts displayed _ pos early (older c cs a b h) =
      frame_from-cons v t0 ts displayed c cs (ground (arith, started-start ts c))
        (ground (arith, started-start ts c)) (λ d. later_frame v t0 ts d cs pos early h)

  full_progress :
      (t0 ts : ℕ) (c : Chain)
      → 0 < c.start
      → c.start ≤ t0
      → t0 + 500 ≤ ts
      → progress_of ts (started ts c) ≡ 500
  unfolding progress_of
  full_progress t0 ts c pos begun late = ground (arith, started-start ts c)

  module _ (whole : (v : ℕ) → floor_part 500 v ≡ v) where
    last_frame :
        (v t0 ts displayed : ℕ) (cs : List Chain)
        → 0 < t0
        → t0 + 500 ≤ ts
        → IsCounting v t0 cs
        → frame_from ts cs displayed ≡ (v, [])
    unfolding frame_from
    last_frame v t0 ts displayed _ pos late (newest c e f) =
        rw (full_progress t0 ts c (ground arith) (ground arith) late)
          (rw e (ap (λ n. (n, [])) (whole v)))
    last_frame v t0 ts displayed _ pos late (older c cs a b h) =
        rw (full_progress t0 ts c a b late)
          (last_frame v t0 ts (floor_part 500 c.target) cs pos late h)

    frames-IsCounting :
        (v t0 : ℕ) (tss : List ℕ) (s : StatNumber)
        → 0 < t0
        → All (λ t. t < t0 + 500) tss
        → IsCounting v t0 s.chains
        → IsCounting v t0 (frames tss s).chains
    unfolding frames frame
    frames-IsCounting v t0 [] s pos early h = h
    frames-IsCounting v t0 (t ∷ tss) s pos early h =
        frames-IsCounting v t0 tss (frame t s) pos early.1
          (later_frame v t0 t s.displayed s.chains pos early.0 h)

    -- Frames before `t0 + 500`, and one at that time or later.
    frames_to_end :
        (v t0 ts : ℕ) (tss : List ℕ) (s : StatNumber)
        → 0 < t0
        → All (λ t. t < t0 + 500) tss
        → t0 + 500 ≤ ts
        → IsCounting v t0 s.chains
        → frames (tss ++ ts ∷ []) s ≡ record { displayed = v; chains = [] }
    unfolding frames frame
    frames_to_end v t0 ts [] s pos early late h =
        ap (λ r. record { displayed = r.0; chains = r.1 })
          (last_frame v t0 ts s.displayed s.chains pos late h)
    frames_to_end v t0 ts (t ∷ tss) s pos early late h =
        frames_to_end v t0 ts tss (frame t s) pos early.1 late
          (later_frame v t0 t s.displayed s.chains pos early.0 h)

    nonzero : (v : ℕ) → 0 < v → (v == 0) ≡ false
    nonzero v h = ground arith

    value_changed-chains :
        (v : ℕ) (s : StatNumber)
        → 0 < v
        → value_changed v s
          ≡ record s { chains = s.chains ++ record { target = v; start = 0 } ∷ [] }
    unfolding value_changed
    value_changed-chains v s h = rw (nonzero v h) refl

    frame-IsCounting :
        (v t0 : ℕ) (s : StatNumber)
        → 0 < v
        → 0 < t0
        → AllBegun t0 s.chains
        → IsCounting v t0 (frame t0 (value_changed v s)).chains
    frame-IsCounting v t0 s h pos begun =
        rw (value_changed-chains v s h)
          (unfold frame in first_frame v t0 s.displayed s.chains pos begun)

    -- A number that changes to one other than 0 has no animation left with the first frame that comes
    -- half a second or more after the change's first frame, and is then on the screen, where a full
    -- progress gives the value itself; an earlier animation that still runs does not disturb it. But if it
    -- changes to 0 at any time in that half second, after the frames `before` and with the frames `after`
    -- still to come, the animation ends at the old value all the same.
    pub frames-value_changed :
        (v t0 ts : ℕ) (before after : List ℕ) (s : StatNumber)
        → 0 < v
        → 0 < t0
        → AllBegun t0 s.chains
        → All (λ t. t < t0 + 500) before
        → All (λ t. t < t0 + 500) after
        → t0 + 500 ≤ ts
        → (frames (after ++ ts ∷ []) (frames before (frame t0 (value_changed v s)))
            ≡ record { displayed = v; chains = [] })
          × (frames
                (after ++ ts ∷ [])
                (value_changed 0 (frames before (frame t0 (value_changed v s))))
              ≡ record { displayed = v; chains = [] })
    unfolding value_changed
    frames-value_changed v t0 ts before after s h pos begun early early' late =
        let t : StatNumber = frames before (frame t0 (value_changed v s)) in
        let counting =
          frames-IsCounting v t0 before (frame t0 (value_changed v s)) pos early
            (frame-IsCounting v t0 s h pos begun) in
        (
          frames_to_end v t0 ts after t pos early' late counting,
          frames_to_end v t0 ts after (value_changed 0 t) pos early' late counting,
        )
