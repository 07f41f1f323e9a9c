-- ===== src/Dict/Defs.antt =====
-- Reading and writing a dictionary.
use migration_safety_engine.Prelude.{
  Option, none, some, List, [], ◌∷◌, Text, text_eq, if◌then◌else◌,
}

abbrev pub Dict {ℓ} : Type ℓ → Type ℓ
Dict V = List (Text × V)

module _ {ℓ} {V : Type ℓ} where
  -- `m.get(k)`, `o[k]`
  unfoldable pub get : Text → Dict V → Option V
  get k [] = none
  get k ((j, v) ∷ d) = if text_eq j k then some v else get k d

  -- `m.set(k, v)`, `o[k] = v`
  unfoldable pub put : Text → V → Dict V → Dict V
  put k v [] = (k, v) ∷ []
  put k v ((j, w) ∷ d) = let rest = put k v d in if text_eq j k then (j, v) ∷ d else (j, w) ∷ rest

  -- `Object.keys(o)`
  unfoldable pub keys : Dict V → List Text
  keys [] = []
  keys ((j, v) ∷ d) = j ∷ keys d
