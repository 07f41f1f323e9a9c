-- ===== src/Prometheus/Parse.antt =====
-- lib/prometheus.ts: `parsePrometheusText`, a line at a time.
use migration_safety_engine.Prelude.{
  ◌+◌, ◌||◌, Option, none, some, List, [], ◌∷◌, ◌++◌, foldl, Text, is_empty, index_of, starts_with,
  split, trim, take, drop, or_else, if◌then◌else◌,
}
use migration_safety_engine.Dict.{Dict, get, put}
use migration_safety_engine.Prometheus.Floats.{Floats}
use migration_safety_engine.Prometheus.Labels.{parse_labels}

module _ (F : Floats) where
  open F use {Num, is_nan, parse_float}

  pub record MetricSample : Type 0 where
    pub labels : Dict Text
    pub value : Num
    pub timestamp : Option Num

  abbrev pub MetricMap : Type 0
  MetricMap = Dict (List MetricSample)

  -- `metrics.get(name) || []`
  unfoldable pub samples_of : Text → MetricMap → List MetricSample
  samples_of name metrics = or_else (get name metrics) []

  -- `existing.push(s)` and `metrics.set(name, existing)`
  unfoldable pub push_sample : Text → MetricSample → MetricMap → MetricMap
  unfolding samples_of
  push_sample name s metrics = put name (samples_of name metrics ++ s ∷ []) metrics

  -- `parseFloat` and the `isNaN` test of both branches of the loop
  unfoldable pub sample_of : Text → Dict Text → Text → Option (Text × MetricSample)
  sample_of name labels value_text =
      let value = parse_float value_text in
      if is_nan value
      then none
      else some (name, record { labels = labels; value = value; timestamp = none })

  -- the branch of the loop of `parsePrometheusText` for a line with no `{`
  unfoldable pub plain_line : List Text → Option (Text × MetricSample)
  unfolding sample_of
  plain_line (name ∷ value_text ∷ rest) = sample_of name [] value_text
  plain_line _ = none

  abbrev pub first_part : List Text → Text
  first_part [] = []
  first_part (part ∷ parts) = part

  -- the branch for a line with labels: `rest` begins with the `{`
  unfoldable pub labelled_line : Text → Text → Option (Text × MetricSample)
  unfolding sample_of parse_labels
  labelled_line name rest = elim (index_of b'}' rest) [
    | none ↦ none
    | some close_idx ↦
        sample_of name (parse_labels (take (close_idx + 1) rest))
          (first_part (split b' ' (trim (drop (close_idx + 1) rest))))
  ]

  -- one round of the loop: the sample that the line adds, if it is not passed over
  unfoldable pub parse_line : Text → Option (Text × MetricSample)
  unfolding plain_line labelled_line
  parse_line line =
      if starts_with b'#' line || is_empty (trim line) then none else elim (index_of b'{' line) [
        | none ↦ plain_line (split b' ' line)
        | some space_idx ↦ labelled_line (take space_idx line) (drop space_idx line)
      ]

  unfoldable pub add_line : MetricMap → Text → MetricMap
  unfolding parse_line push_sample
  add_line metrics line = elim (parse_line line) [
    | none ↦ metrics
    | some (name, s) ↦ push_sample name s metrics
  ]

  unfoldable pub parse_prometheus_text : Text → MetricMap
  unfolding add_line
  parse_prometheus_text text = foldl add_line [] (split 10 text)
