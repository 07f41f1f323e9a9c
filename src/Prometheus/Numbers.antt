-- ===== src/Prometheus/Numbers.antt =====
-- The parser of lib/prometheus.ts admits no sample whose value is NaN, whatever the text.
use migration_safety_engine.Prometheus.Parse.{
  MetricMap, MetricSample, add_line, labelled_line, parse_line, parse_prometheus_text, plain_line,
  push_sample, sample_of, samples_of,
}
use migration_safety_engine.Prometheus.Floats.{Floats}
use migration_safety_engine.Dict.{Dict, get, put}
use migration_safety_engine.Prelude.{
  All, All-append, Bool-cases, List, Option-cases, Text, [], arith, false, foldl, inl, inr, some,
  split, text_eq, ◌++◌, ◌∷◌, ◌≡◌,
}

module _ (F : Floats) where
  abbrev pub IsNumber : MetricSample F → Type 0
  IsNumber s = F.is_nan s.value ≡ false

  abbrev pub HasNumbers : MetricMap F → Type 0
  HasNumbers = All (λ entry. All IsNumber entry.1)

  sample_of-IsNumber :
      (name : Text) (labels : Dict Text) (value_text : Text) {n : Text} {s : MetricSample F}
      → sample_of F name labels value_text ≡ some (n, s)
      → IsNumber s
  unfolding sample_of
  sample_of-IsNumber name labels value_text e = ground arith

  plain_line-IsNumber :
      (parts : List Text) {n : Text} {s : MetricSample F}
      → plain_line F parts ≡ some (n, s)
      → IsNumber s
  unfolding plain_line
  plain_line-IsNumber [] e = cc
  plain_line-IsNumber (name ∷ []) e = cc
  plain_line-IsNumber (name ∷ value_text ∷ rest) e = sample_of-IsNumber name [] value_text e

  labelled_line-IsNumber :
      (name rest : Text) {n : Text} {s : MetricSample F}
      → labelled_line F name rest ≡ some (n, s)
      → IsNumber s
  unfolding labelled_line sample_of
  labelled_line-IsNumber name rest e = ground arith

  parse_line-IsNumber :
      (line : Text) {n : Text} {s : MetricSample F} → parse_line F line ≡ some (n, s) → IsNumber s
  unfolding parse_line
  parse_line-IsNumber line e = ground arith

  samples_of-IsNumber :
      (name : Text) (m : MetricMap F) → HasNumbers m → All IsNumber (samples_of F name m)
  unfolding samples_of get
  samples_of-IsNumber name [] h = tt
  samples_of-IsNumber name ((j, samples) ∷ m) h = elim (Bool-cases (text_eq j name)) [
    | inl same ↦ rw same h.0
    | inr other ↦ rw other (samples_of-IsNumber name m h.1)
  ]

  put-HasNumbers :
      (name : Text) (samples : List (MetricSample F)) (m : MetricMap F)
      → All IsNumber samples
      → HasNumbers m
      → HasNumbers (put name samples m)
  unfolding put
  put-HasNumbers name samples [] k h = (k, tt)
  put-HasNumbers name samples ((j, old) ∷ m) k h = elim (Bool-cases (text_eq j name)) [
    | inl same ↦ rw same (k, h.1)
    | inr other ↦ rw other (h.0, put-HasNumbers name samples m k h.1)
  ]

  add_line-HasNumbers :
      (m : MetricMap F) (line : Text) → HasNumbers m → HasNumbers (add_line F m line)
  unfolding add_line push_sample
  add_line-HasNumbers m line h = elim (Option-cases (parse_line F line)) [
    | inl skipped ↦ rw (skipped, add_line) h
    | inr ((name, s), read) ↦
        rw (read, add_line)
          (put-HasNumbers name (samples_of F name m ++ s ∷ []) m
            (All-append IsNumber (samples_of F name m) (s ∷ []) (samples_of-IsNumber name m h)
              (parse_line-IsNumber line read, tt))
            h)
  ]

  fold-HasNumbers :
      (m : MetricMap F) (lines : List Text) → HasNumbers m → HasNumbers (foldl (add_line F) m lines)
  fold-HasNumbers m [] h = h
  fold-HasNumbers m (line ∷ lines) h =
      fold-HasNumbers (add_line F m line) lines (add_line-HasNumbers m line h)

  -- Whatever the text, no sample of the parsed map is NaN.
  pub parse-HasNumbers : (text : Text) → HasNumbers (parse_prometheus_text F text)
  unfolding parse_prometheus_text
  parse-HasNumbers text = fold-HasNumbers [] (split 10 text) tt
