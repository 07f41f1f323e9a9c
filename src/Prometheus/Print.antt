-- ===== src/Prometheus/Print.antt =====
-- The exposition format as a printer: the lines of the endpoint `/metrics` that the parser of
-- frontend/src/lib/prometheus.ts has to read. This is the specification, not code of the program.
use migration_safety_engine.Prelude.{[], ◌∷◌, ◌++◌, Text, Lacks, IsTrimmed, All}
use migration_safety_engine.Dict.{Dict}

pub record Printed : Type 0 where
  pub name : Text
  pub pairs : Dict Text
  pub value_text : Text

-- `key="val"`
unfoldable pub print_pair : Text × Text → Text
print_pair (key, val) = key ++ b'=' ∷ b'"' ∷ (val ++ b'"' ∷ [])

unfoldable pub print_pairs : Dict Text → Text
unfolding print_pair
print_pairs [] = []
print_pairs (kv ∷ []) = print_pair kv
print_pairs (kv ∷ lw ∷ pairs) = print_pair kv ++ b',' ∷ print_pairs (lw ∷ pairs)

unfoldable pub print_line : Printed → Text
unfolding print_pairs
print_line p = p.name ++ b'{' ∷ (print_pairs p.pairs ++ b'}' ∷ b' ' ∷ p.value_text)

-- A label whose key and value the parser can tell from the separators.
pub record IsPlainPair (kv : Text × Text) : Type 0 where
  pub key_equals : Lacks b'=' kv.0
  pub key_comma : Lacks b',' kv.0
  pub key_brace : Lacks b'}' kv.0
  pub key_trimmed : IsTrimmed kv.0
  pub val_comma : Lacks b',' kv.1
  pub val_brace : Lacks b'}' kv.1
  pub val_trimmed : IsTrimmed kv.1

pub record IsPlain (p : Printed) : Type 0 where
  pub name_hash : Lacks b'#' p.name
  pub name_brace : Lacks b'{' p.name
  pub plain_pairs : All IsPlainPair p.pairs
  pub value_space : Lacks b' ' p.value_text
  pub value_trimmed : IsTrimmed p.value_text
