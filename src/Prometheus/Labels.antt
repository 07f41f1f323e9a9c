-- ===== src/Prometheus/Labels.antt =====
-- lib/prometheus.ts: label sets, and the test of a sample's labels against a filter.
use migration_safety_engine.Prelude.{
  ◌+◌, Bool, false, Option, none, some, [], foldl, Text, lit, text_eq, is_empty, index_of, split,
  trim, strip_first, strip_last, take, drop, all, if◌then◌else◌,
}
use migration_safety_engine.Dict.{Dict, get, put}

-- an assignment `labels[key] = val`; that of a string to `__proto__` has no effect
unfoldable pub put_label : Text → Text → Dict Text → Dict Text
put_label key val labels = if text_eq key (lit "__proto__") then labels else put key val labels

-- one round of the loop of `parseLabels`
unfoldable pub add_pair : Dict Text → Text → Dict Text
unfolding put_label
add_pair labels pair = elim (index_of b'=' pair) [
  | none ↦ labels
  | some eq_idx ↦
      put_label (trim (take eq_idx pair))
        (trim (strip_last b'"' (strip_first b'"' (drop (eq_idx + 1) pair)))) labels
]

unfoldable pub parse_labels : Text → Dict Text
unfolding add_pair
parse_labels label_str =
    if is_empty label_str
    then []
    else foldl add_pair [] (split b',' (strip_last b'}' (strip_first b'{' label_str)))

-- `for (const [k, v] of Object.entries(filter)) if (s.labels[k] !== v) …`
abbrev pub has_value : Option Text → Text → Bool
has_value none v = false
has_value (some w) v = text_eq w v

unfoldable pub matches : Dict Text → Dict Text → Bool
matches filter labels = all (λ kv. has_value (get kv.0 labels) kv.1) filter
