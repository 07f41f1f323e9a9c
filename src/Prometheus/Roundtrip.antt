-- ===== src/Prometheus/Roundtrip.antt =====
-- A printed line is parsed back to its name, its labels and its value.
use migration_safety_engine.Prelude.{
  ℕ, [], ◌∷◌, ◌++◌, Text, Lacks, All, All-append, ◌≡◌, ◌≢◌, arith, refl, index_of-append,
  take-append, drop_past, split, split-Lacks, split-append, strip_first, strip_last,
  strip_last-append, foldl, IsTrimmed, drop-append, false, index_of, is_space, starts_with,
  take_through, trim-space, trim_keeps,
}
use migration_safety_engine.Prometheus.Floats.{Floats}
use migration_safety_engine.Prometheus.Parse.{sample_of, labelled_line, parse_line}
use migration_safety_engine.Prometheus.Print.{Printed, print_line, IsPlain}
use migration_safety_engine.Dict.{Dict}
use migration_safety_engine.Prometheus.Labels.{put_label, add_pair, parse_labels}
use migration_safety_engine.Prometheus.Print.{print_pair, print_pairs, IsPlainPair}

-- The labels that a list of pairs writes, one after the other.
abbrev pub written : Dict Text → Dict Text
written = foldl (λ labels kv. put_label kv.0 kv.1 labels) []

strip_quotes : (val : Text) → strip_last b'"' (strip_first b'"' (b'"' ∷ (val ++ b'"' ∷ []))) ≡ val
unfolding strip_first
strip_quotes val = strip_last-append b'"' val

add_pair-print_pair :
    (labels : Dict Text) (key val : Text)
    → IsPlainPair (key, val)
    → add_pair labels (print_pair (key, val)) ≡ put_label key val labels
unfolding add_pair print_pair
add_pair-print_pair labels key val h =
    let quoted : Text = b'"' ∷ (val ++ b'"' ∷ []) in
    rw (index_of-append b'=' key quoted h.key_equals, add_pair)
      (rw (take-append key (b'=' ∷ quoted), drop_past key quoted b'=', strip_quotes val)
        (rw (h.key_trimmed, h.val_trimmed) refl))

quoted-Lacks : (c : ℕ) (val : Text) → Lacks c val → b'"' ≢ c → Lacks c (b'"' ∷ (val ++ b'"' ∷ []))
quoted-Lacks c val h q = (q, All-append (λ d. d ≢ c) val (b'"' ∷ []) h (q, tt))

print_pair-Lacks :
    (c : ℕ) (key val : Text)
    → Lacks c key
    → Lacks c val
    → b'=' ≢ c
    → b'"' ≢ c
    → Lacks c (print_pair (key, val))
unfolding print_pair
print_pair-Lacks c key val hk hv e q = All-append (λ d. d ≢ c) key _ hk (e, quoted-Lacks c val hv q)

print_pair_comma : (kv : Text × Text) → IsPlainPair kv → Lacks b',' (print_pair kv)
print_pair_comma (key, val) h =
    print_pair-Lacks b',' key val h.key_comma h.val_comma (omega arith) (omega arith)

print_pairs_brace : (pairs : Dict Text) → All IsPlainPair pairs → Lacks b'}' (print_pairs pairs)
unfolding print_pairs
print_pairs_brace [] h = tt
print_pairs_brace ((key, val) ∷ []) h =
    print_pair-Lacks b'}' key val h.0.key_brace h.0.val_brace (omega arith) (omega arith)
print_pairs_brace ((key, val) ∷ lw ∷ pairs) h =
    All-append (λ d. d ≢ b'}') (print_pair (key, val)) _
      (print_pair-Lacks b'}' key val h.0.key_brace h.0.val_brace (omega arith) (omega arith))
      (omega arith, print_pairs_brace (lw ∷ pairs) h.1)

-- The loop of `parseLabels` over the printed pairs, from any labels read before.
fold-print_pairs :
    (labels : Dict Text) (pairs : Dict Text)
    → All IsPlainPair pairs
    → foldl add_pair labels (split b',' (print_pairs pairs))
      ≡ foldl (λ read kv. put_label kv.0 kv.1 read) labels pairs
unfolding print_pairs
fold-print_pairs labels [] h = unfold split index_of add_pair in refl
fold-print_pairs labels ((key, val) ∷ []) h =
    rw (split-Lacks b',' (print_pair (key, val)) (print_pair_comma (key, val) h.0))
      (add_pair-print_pair labels key val h.0)
fold-print_pairs labels ((key, val) ∷ lw ∷ pairs) h =
    rw
      (split-append b',' (print_pair (key, val)) (print_pairs (lw ∷ pairs))
        (print_pair_comma (key, val) h.0))
      (rw (add_pair-print_pair labels key val h.0, foldl)
        (fold-print_pairs (put_label key val labels) (lw ∷ pairs) h.1))

-- `parseLabels` reads a printed label set back.
pub parse_labels-print_pairs :
    (pairs : Dict Text)
    → All IsPlainPair pairs
    → parse_labels (b'{' ∷ (print_pairs pairs ++ b'}' ∷ [])) ≡ written pairs
unfolding parse_labels strip_first
parse_labels-print_pairs pairs h =
    rw (strip_last-append b'}' (print_pairs pairs)) (fold-print_pairs [] pairs h)

labelled_line-print_pairs :
    (F : Floats) (name value_text : Text) (pairs : Dict Text)
    → All IsPlainPair pairs
    → Lacks b' ' value_text
    → IsTrimmed value_text
    → labelled_line F name ((b'{' ∷ print_pairs pairs) ++ b'}' ∷ b' ' ∷ value_text)
      ≡ sample_of F name (written pairs) value_text
unfolding labelled_line sample_of
labelled_line-print_pairs F name value_text pairs h space trimmed =
    let inner : Text = b'{' ∷ print_pairs pairs in
    rw
      (
        index_of-append b'}' inner (b' ' ∷ value_text) (omega arith, print_pairs_brace pairs h),
        labelled_line,
      )
      (rw
        (
          take_through inner (b' ' ∷ value_text) b'}',
          drop_past inner (b' ' ∷ value_text) b'}',
          parse_labels-print_pairs pairs h,
          trim-space value_text,
        )
        (rw trimmed (rw (split-Lacks b' ' value_text space) refl)))

starts_with-append : (c d : ℕ) (s t : Text) → Lacks c s → d ≢ c → starts_with c (s ++ d ∷ t) ≡ false
starts_with-append c d [] t h e = ground arith
starts_with-append c d (x ∷ s) t h e = ground arith

-- A printed line is read back: its name, the dictionary of its pairs and the number of its value.
pub parse_line-print_line :
    (F : Floats) (p : Printed)
    → IsPlain p
    → parse_line F (print_line p) ≡ sample_of F p.name (written p.pairs) p.value_text
unfolding print_line parse_line sample_of
parse_line-print_line F p h =
    let rest : Text = print_pairs p.pairs ++ b'}' ∷ b' ' ∷ p.value_text in
    rw
      (
        starts_with-append b'#' b'{' p.name rest h.name_hash (omega arith),
        trim_keeps p.name b'{' rest (unfold is_space in refl),
        index_of-append b'{' p.name rest h.name_brace,
        parse_line,
      )
      (rw (take-append p.name (b'{' ∷ rest), drop-append p.name (b'{' ∷ rest))
        (labelled_line-print_pairs F p.name p.value_text p.pairs h.plain_pairs h.value_space
          h.value_trimmed))
