-- ===== src/Prometheus/Transitions.antt =====
-- What `getTransitions` of lib/prometheus.ts counts for each state.
use migration_safety_engine.Prometheus.Labels.{has_value}
use migration_safety_engine.Prometheus.Query.{
  count_transition, Transition, get_transitions, to_transition,
}
use migration_safety_engine.Prometheus.Parse.{MetricSample, MetricMap, samples_of}
use migration_safety_engine.Prometheus.Floats.{Floats, or_zero}
use migration_safety_engine.Dict.{Dict, get-put, put, get, keys}
use migration_safety_engine.Prelude.{
  All, Bool, Bool-cases, List, Option, Text, [], ap, arith, foldl, if◌then◌else◌, inl, inr, lit,
  or_else, refl, some, text_eq, text_eq_iff, ◌&&◌, ◌∙◌, ◌∷◌, ◌≡◌, ◌≢◌, map, none,
}

-- `a` is none of the listed texts.
abbrev pub Fresh : Text → List Text → Type 0
Fresh a = All (λ b. a ≢ b)

abbrev pub Distinct : List Text → Type 0
Distinct [] = Unit
Distinct (a ∷ as_rest) = Fresh a as_rest × Distinct as_rest

module _ {ℓ} {V : Type ℓ} where
  Fresh-keys-put :
      (a k : Text) (v : V) (d : Dict V) → a ≢ k → Fresh a (keys d) → Fresh a (keys (put k v d))
  unfolding put keys
  Fresh-keys-put a k v [] ne h = (ne, tt)
  Fresh-keys-put a k v ((j, w) ∷ d) ne h = elim (Bool-cases (text_eq j k)) [
    | inl same ↦ rw same h
    | inr other ↦ rw other (h.0, Fresh-keys-put a k v d ne h.1)
  ]

  pub Distinct-keys-put :
      (k : Text) (v : V) (d : Dict V) → Distinct (keys d) → Distinct (keys (put k v d))
  unfolding put keys
  Distinct-keys-put k v [] h = (tt, tt)
  Distinct-keys-put k v ((j, w) ∷ d) h = elim (Bool-cases (text_eq j k)) [
    | inl same ↦ rw same h
    | inr other ↦ rw other (
      Fresh-keys-put j k v d (λ e. ground (arith, text_eq_iff j k)) h.0,
      Distinct-keys-put k v d h.1,
    )
  ]

module _ (F : Floats) (plan_id : Text) where
  -- The sample counts a transition of the plan into the state.
  unfoldable pub is_counted : Text → MetricSample F → Bool
  is_counted state s =
      has_value (get (lit "plan_id") s.labels) plan_id
      && text_eq (or_else (get (lit "to_state") s.labels) []) state

  -- The count of one state alone; `none` until a sample counts for it.
  unfoldable pub tally : Text → Option F.Num → MetricSample F → Option F.Num
  unfolding is_counted
  tally state count s =
      if is_counted state s
      then some (F.add (or_zero F (or_else count F.zero_num)) s.value)
      else count

  get-count_transition :
      (state : Text) (result : Dict F.Num) (s : MetricSample F)
      → get state (count_transition F plan_id result s) ≡ tally state (get state result) s
  unfolding count_transition tally
  get-count_transition state result s =
      let to_state : Text = or_else (get (lit "to_state") s.labels) [] in
      let count : F.Num = F.add (or_zero F (or_else (get to_state result) F.zero_num)) s.value in
      elim (Bool-cases (has_value (get (lit "plan_id") s.labels) plan_id)) [
        | inl mine ↦ rw mine (
            rw (get-put to_state state count result) (elim (Bool-cases (text_eq to_state state)) [
              | inl same ↦
                  let e : to_state ≡ state = (text_eq_iff to_state state).0 same in
                  rw same (rw e refl)
              | inr other ↦ rw other refl
            ]))
        | inr foreign ↦ rw foreign refl
      ]

  fold-count_transition :
      (state : Text) (result : Dict F.Num) (samples : List (MetricSample F))
      → get state (foldl (count_transition F plan_id) result samples)
        ≡ foldl (tally state) (get state result) samples
  fold-count_transition state result [] = refl
  fold-count_transition state result (s ∷ samples) =
      fold-count_transition state (count_transition F plan_id result s) samples
      ∙ ap (λ c. foldl (tally state) c samples) (get-count_transition state result s)

  count_transition-Distinct :
      (result : Dict F.Num) (s : MetricSample F)
      → Distinct (keys result)
      → Distinct (keys (count_transition F plan_id result s))
  unfolding count_transition
  count_transition-Distinct result s h =
      elim (Bool-cases (has_value (get (lit "plan_id") s.labels) plan_id)) [
        | inl mine ↦ rw mine (Distinct-keys-put _ _ result h)
        | inr foreign ↦ rw foreign h
      ]

  fold-Distinct :
      (result : Dict F.Num) (samples : List (MetricSample F))
      → Distinct (keys result)
      → Distinct (keys (foldl (count_transition F plan_id) result samples))
  fold-Distinct result [] h = h
  fold-Distinct result (s ∷ samples) h =
      fold-Distinct (count_transition F plan_id result s) samples
        (count_transition-Distinct result s h)

  -- The count that the list of transitions gives for a state.
  unfoldable pub find_count : Text → List (Transition F) → Option F.Num
  find_count state [] = none
  find_count state (t ∷ ts) = if text_eq t.state state then some t.count else find_count state ts

  find_count-map :
      (state : Text) (result : Dict F.Num)
      → find_count state (map (to_transition F) result) ≡ get state result
  unfolding find_count get
  find_count-map state [] = refl
  find_count-map state ((j, count) ∷ result) = ground (arith, find_count-map state result)

  map-state-keys :
      (result : Dict F.Num) → map (λ t. t.state) (map (to_transition F) result) ≡ keys result
  unfolding keys
  map-state-keys [] = refl
  map-state-keys ((j, count) ∷ result) = ap (λ l. j ∷ l) (map-state-keys result)

  -- The listed states are distinct.
  pub get_transitions-Distinct :
      (m : MetricMap F) → Distinct (map (λ t. t.state) (get_transitions F m plan_id))
  unfolding get_transitions keys
  get_transitions-Distinct m =
      rw
        (map-state-keys (
          foldl (count_transition F plan_id) []
            (samples_of F (lit "migrate_state_transitions_total") m)))
        (fold-Distinct [] (samples_of F (lit "migrate_state_transitions_total") m) tt)

  -- The count of a state is the tally of the plan's samples into that state, in their order, and a
  -- state is listed exactly if the tally has a sample.
  pub find_count-get_transitions :
      (m : MetricMap F) (state : Text)
      → find_count state (get_transitions F m plan_id)
        ≡ foldl (tally state) none (samples_of F (lit "migrate_state_transitions_total") m)
  unfolding get_transitions get
  find_count-get_transitions m state =
      find_count-map state _
      ∙ fold-count_transition state [] (samples_of F (lit "migrate_state_transitions_total") m)
