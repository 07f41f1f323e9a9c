-- ===== src/Dict/Laws.antt =====
-- What a read returns after a write, and which keys a dictionary holds.
use migration_safety_engine.Prelude.{
  ◌≡◌, refl, some, [], ◌∷◌, arith, Text, text_eq, text_eq_iff, if◌then◌else◌,
}
use migration_safety_engine.Dict.Defs.{Dict, get, put}

module _ {ℓ} {V : Type ℓ} where
  pub get-put :
      (k j : Text) (v : V) (d : Dict V)
      → get j (put k v d) ≡ (if text_eq k j then some v else get j d)
  unfolding get put
  get-put k j v [] = refl
  get-put k j v ((i, w) ∷ d) =
      ground (arith, text_eq_iff k j, text_eq_iff i k, text_eq_iff i j, get-put k j v d)
