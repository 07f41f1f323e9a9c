-- ===== src/Prometheus/Document.antt =====
-- Whole documents of the exposition format: comments and printed lines, each ended by a newline.
use migration_safety_engine.Prometheus.Roundtrip.{parse_line-print_line, written}
use migration_safety_engine.Prometheus.Parse.{
  MetricMap, add_line, parse_line, parse_prometheus_text, push_sample, sample_of,
}
use migration_safety_engine.Prometheus.Floats.{Floats}
use migration_safety_engine.Prelude.{
  All, Lacks, List, Text, [], arith, foldl, none, some, split, split-append, ◌++◌, ◌∷◌, ◌≡◌, refl,
  trim,
}
use migration_safety_engine.Prometheus.Print.{Printed, print_line, IsPlain}

pub data Entry : Type 0 where
  comment : Text → Entry
  sample : Printed → Entry

unfoldable pub print_entry : Entry → Text
unfolding print_line
print_entry (comment text) = b'#' ∷ text
print_entry (sample p) = print_line p

unfoldable pub print_document : List Entry → Text
unfolding print_entry
print_document [] = []
print_document (e ∷ es) = print_entry e ++ 10 ∷ print_document es

-- A line that the parser can tell from its neighbours and that it reads back.
abbrev pub IsReadable : Entry → Type 0
IsReadable (comment text) = Lacks 10 text
IsReadable (sample p) = IsPlain p × Lacks 10 (print_line p)

module _ (F : Floats) where
  -- The map that the entries stand for: the samples that are numbers, in their order.
  unfoldable pub add_entry : MetricMap F → Entry → MetricMap F
  add_entry metrics (comment text) = metrics
  add_entry metrics (sample p) = elim (sample_of F p.name (written p.pairs) p.value_text) [
    | none ↦ metrics
    | some (name, s) ↦ push_sample F name s metrics
  ]

  add_line-print_entry :
      (metrics : MetricMap F) (e : Entry)
      → IsReadable e
      → add_line F metrics (print_entry e) ≡ add_entry metrics e
  unfolding add_line parse_line print_entry add_entry
  add_line-print_entry metrics (comment text) h = refl
  add_line-print_entry metrics (sample p) h = rw (parse_line-print_line F p h.0, add_line)

  print_entry_newline : (e : Entry) → IsReadable e → Lacks 10 (print_entry e)
  unfolding print_entry
  print_entry_newline (comment text) h = (omega arith, h)
  print_entry_newline (sample p) h = h.1

  fold-print_document :
      (metrics : MetricMap F) (es : List Entry)
      → All IsReadable es
      → foldl (add_line F) metrics (split 10 (print_document es)) ≡ foldl add_entry metrics es
  unfolding print_document
  fold-print_document metrics [] h = unfold split add_line parse_line trim in refl
  fold-print_document metrics (e ∷ es) h =
      rw (split-append 10 (print_entry e) (print_document es) (print_entry_newline e h.0)) (
        rw (add_line-print_entry metrics e h.0, foldl)
          (fold-print_document (add_entry metrics e) es h.1))

  -- A document of comments and printed lines is parsed to exactly the samples that it lists.
  pub parse-print_document :
      (es : List Entry)
      → All IsReadable es
      → parse_prometheus_text F (print_document es) ≡ foldl add_entry [] es
  unfolding parse_prometheus_text
  parse-print_document es h = fold-print_document [] es h
