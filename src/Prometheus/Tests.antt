-- ===== src/Prometheus/Tests.antt =====
-- The parser and the queries of frontend/src/lib/prometheus.ts on small texts, with natural numbers for
-- the values, and the properties at inputs that meet their hypotheses.
use migration_safety_engine.Prometheus.Updates.{get_latest-push_sample, get_sum-push_sample}
use migration_safety_engine.Prometheus.Transitions.{find_count, find_count-get_transitions, tally}
use migration_safety_engine.Prometheus.Numbers.{HasNumbers, parse-HasNumbers}
use migration_safety_engine.Dict.{get, put}
use migration_safety_engine.Prometheus.Labels.{put_label, matches}
use migration_safety_engine.Prometheus.Parse.{
  parse_prometheus_text, MetricSample, push_sample, samples_of,
}
use migration_safety_engine.Prometheus.Query.{
  extract_migration_metrics, get_latest, get_transitions, get_sum, plan_filter,
}
use migration_safety_engine.Prometheus.Print.{Printed, print_line, IsPlain, IsPlainPair}
use migration_safety_engine.Prometheus.Floats.{Floats}
use migration_safety_engine.Prometheus.Document.{
  Entry, IsReadable, add_entry, parse-print_document, print_document, comment, sample,
}
use migration_safety_engine.Prelude.{
  All, Bool, List, Option, Text, [], false, foldl, if◌then◌else◌, index_of, leb, lit, ltb, none,
  or_else, refl, some, split, strip_first, strip_last, text_eq, trim, true, ℕ, ◌&&◌, ◌*◌, ◌++◌, ◌+◌,
  ◌-◌, ◌/◌, ◌==◌, ◌∷◌, ◌≡◌, arith,
}

-- The digits that a text begins with; `none` stands for NaN.
digits_of : Option ℕ → Text → Option ℕ
digits_of found [] = found
digits_of found (c ∷ s) =
    let more = digits_of (some (or_else found 0 * 10 + (c - b'0'))) s in
    if leb b'0' c && leb c b'9' then more else found

abbrev lift₂ : (ℕ → ℕ → ℕ) → Option ℕ → Option ℕ → Option ℕ
lift₂ f (some a) (some b) = some (f a b)
lift₂ f _ _ = none

abbrev compare_by : (ℕ → ℕ → Bool) → Option ℕ → Option ℕ → Bool
compare_by f (some a) (some b) = f a b
compare_by f _ _ = false

abbrev is_none : Option ℕ → Bool
is_none none = true
is_none (some a) = false

abbrev naturals : Floats
naturals = record {
  Num = Option ℕ;
  zero_num = some 0;
  one = some 1;
  hundred = some 100;
  add = lift₂ (λ a b. a + b);
  mul = lift₂ (λ a b. a * b);
  div = lift₂ (λ a b. a / b);
  gt = compare_by (λ a b. ltb b a);
  eq = compare_by (λ a b. a == b);
  is_nan = is_none;
  parse_float = digits_of none;
}

abbrev newline : Text
newline = 10 ∷ []

abbrev exposition : Text
exposition =
    lit "# HELP rows"
    ++ newline
    ++ lit "migrate_backfill_rows_total{migration_id=\"m\",plan_id=\"p\"} 40"
    ++ newline
    ++ lit "migrate_backfill_rows_done{migration_id=\"m\",plan_id=\"p\"} 10"
    ++ newline
    ++ lit "migrate_state_transitions_total{plan_id=\"p\",to_state=\"Done\"} 2"
    ++ newline
    ++ lit "migrate_state_transitions_total{plan_id=\"q\",to_state=\"Done\"} 5"
    ++ newline
    ++ lit "migrate_state_transitions_total{plan_id=\"p\",to_state=\"Done\"} 1"
    ++ newline
    ++ lit "migrate_rollbacks_total{plan_id=\"p\"} x"
    ++ newline
    ++ lit "up 1"

parser : Unit {0}
unfolding parse_prometheus_text extract_migration_metrics digits_of get put text_eq index_of split
    trim strip_first strip_last put_label matches
parser = tt

extract_test :
    (extract_migration_metrics naturals
      (parse_prometheus_text naturals exposition)
      (lit "m")
      (lit "p")).backfill_total
    ≡ some 40
unfolding parser
extract_test = refl

up_test : get_latest naturals (parse_prometheus_text naturals exposition) (lit "up") [] ≡ some 1
unfolding parser
up_test = refl

transitions_test :
    get_transitions naturals (parse_prometheus_text naturals exposition) (lit "p")
    ≡ record { state = lit "Done"; count = some 3 } ∷ []
unfolding parser
transitions_test = refl

abbrev printed : Printed
printed = record {
  name = lit "rows";
  pairs = (lit "plan_id", lit "p 1") ∷ (lit "state", lit "Done") ∷ [];
  value_text = lit "42";
}

abbrev document : List Entry
document = comment (lit " HELP") ∷ sample printed ∷ []

plan_pair : IsPlainPair (lit "plan_id", lit "p 1")
unfolding trim
plan_pair = record {
  key_equals = omega arith;
  key_comma = omega arith;
  key_brace = omega arith;
  key_trimmed = refl;
  val_comma = omega arith;
  val_brace = omega arith;
  val_trimmed = refl;
}

state_pair : IsPlainPair (lit "state", lit "Done")
unfolding trim
state_pair = record {
  key_equals = omega arith;
  key_comma = omega arith;
  key_brace = omega arith;
  key_trimmed = refl;
  val_comma = omega arith;
  val_brace = omega arith;
  val_trimmed = refl;
}

printed-IsPlain : IsPlain printed
unfolding trim
printed-IsPlain = record {
  name_hash = omega arith;
  name_brace = omega arith;
  plain_pairs = (plan_pair, (state_pair, tt));
  value_space = omega arith;
  value_trimmed = refl;
}

document-IsReadable : All IsReadable document
unfolding print_line
document-IsReadable = (omega arith, ((printed-IsPlain, omega arith), tt))

parse-print_document_example :
    parse_prometheus_text naturals (print_document document)
    ≡ foldl (add_entry naturals) [] document
parse-print_document_example = parse-print_document naturals document document-IsReadable

abbrev pushed : MetricSample naturals
pushed = record { labels = plan_filter (lit "p"); value = some 7; timestamp = none }

get_latest-push_sample_example :
    get_latest naturals
      (push_sample naturals (lit "up") pushed [])
      (lit "up")
      (plan_filter (lit "p"))
    ≡ (if text_eq (lit "up") (lit "up") && matches (plan_filter (lit "p")) pushed.labels
        then some 7
        else get_latest naturals [] (lit "up") (plan_filter (lit "p")))
get_latest-push_sample_example =
    get_latest-push_sample naturals (lit "up") (lit "up") pushed [] (plan_filter (lit "p"))

get_sum-push_sample_example :
    get_sum naturals (push_sample naturals (lit "up") pushed []) (lit "up") (plan_filter (lit "p"))
    ≡ (if text_eq (lit "up") (lit "up") && matches (plan_filter (lit "p")) pushed.labels
        then lift₂ (λ a b. a + b) (get_sum naturals [] (lit "up") (plan_filter (lit "p"))) (some 7)
        else get_sum naturals [] (lit "up") (plan_filter (lit "p")))
get_sum-push_sample_example =
    get_sum-push_sample naturals (lit "up") (lit "up") pushed [] (plan_filter (lit "p"))

parse-HasNumbers_example : HasNumbers naturals (parse_prometheus_text naturals exposition)
parse-HasNumbers_example = parse-HasNumbers naturals exposition

find_count-get_transitions_example :
    find_count naturals
      (lit "p")
      (lit "Done")
      (get_transitions naturals (parse_prometheus_text naturals exposition) (lit "p"))
    ≡ foldl (tally naturals (lit "p") (lit "Done")) none (
        samples_of naturals
          (lit "migrate_state_transitions_total")
          (parse_prometheus_text naturals exposition))
find_count-get_transitions_example =
    find_count-get_transitions naturals (lit "p") (parse_prometheus_text naturals exposition)
      (lit "Done")
