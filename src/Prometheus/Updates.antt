-- ===== src/Prometheus/Updates.antt =====
-- What the queries of lib/prometheus.ts return after one more sample has been pushed.
use migration_safety_engine.Prometheus.Labels.{matches}
use migration_safety_engine.Prometheus.Query.{first_match, get_latest, get_sum, sum_from}
use migration_safety_engine.Prometheus.Parse.{MetricMap, MetricSample, push_sample, samples_of}
use migration_safety_engine.Prometheus.Floats.{Floats}
use migration_safety_engine.Dict.{Dict, get-put}
use mathlib.Core.List.{reverse-append}
use migration_safety_engine.Prelude.{
  Bool-cases, List, Text, [], arith, filter, if◌then◌else◌, inl, inr, refl, text_eq, text_eq_iff,
  ◌&&◌, ◌++◌, ◌∷◌, ◌≡◌,
}

module _ (F : Floats) where
  samples_of-push_sample :
      (name j : Text) (s : MetricSample F) (m : MetricMap F)
      → samples_of F j (push_sample F name s m)
        ≡ (if text_eq name j then samples_of F j m ++ s ∷ [] else samples_of F j m)
  unfolding samples_of push_sample
  samples_of-push_sample name j s m =
      ground (arith, text_eq_iff name j, get-put name j (samples_of F name m ++ s ∷ []) m)

  sum_from-append :
      (filter : Dict Text) (total : F.Num) (s : MetricSample F) (samples : List (MetricSample F))
      → sum_from F filter total (samples ++ s ∷ []) ≡ (
          if matches filter s.labels
          then F.add (sum_from F filter total samples) s.value
          else sum_from F filter total samples)
  unfolding sum_from
  sum_from-append filter total s [] = ground arith
  sum_from-append filter total s (t ∷ samples) =
      sum_from-append filter (if matches filter t.labels then F.add total t.value else total) s
        samples

  -- A query for the latest value returns that of the pushed sample if it is of the metric and its
  -- labels match, and otherwise what it returned before.
  pub get_latest-push_sample :
      (name j : Text) (s : MetricSample F) (m : MetricMap F) (filter : Dict Text)
      → get_latest F (push_sample F name s m) j filter
        ≡ (if text_eq name j && matches filter s.labels then s.value else get_latest F m j filter)
  unfolding get_latest first_match
  get_latest-push_sample name j s m filter = elim (Bool-cases (text_eq name j)) [
    | inl same ↦
        rw (samples_of-push_sample name j s m)
          (rw same (rw (reverse-append (samples_of F j m) (s ∷ [])) refl))
    | inr other ↦ rw (samples_of-push_sample name j s m) (rw other refl)
  ]

  -- A sum grows by the value of the pushed sample if it is of the metric and its labels match, and is
  -- otherwise what it was.
  pub get_sum-push_sample :
      (name j : Text) (s : MetricSample F) (m : MetricMap F) (filter : Dict Text)
      → get_sum F (push_sample F name s m) j filter ≡ (
          if text_eq name j && matches filter s.labels
          then F.add (get_sum F m j filter) s.value
          else get_sum F m j filter)
  unfolding get_sum
  get_sum-push_sample name j s m filter = elim (Bool-cases (text_eq name j)) [
    | inl same ↦
        rw (samples_of-push_sample name j s m)
          (rw same (sum_from-append filter F.zero_num s (samples_of F j m)))
    | inr other ↦ rw (samples_of-push_sample name j s m) (rw other refl)
  ]
