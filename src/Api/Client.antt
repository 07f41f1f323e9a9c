-- ===== src/Api/Client.antt =====
-- The token and the headers of the class `ApiClient` of frontend/src/lib/api.ts, and its two ways to
-- turn an answer that is not ok into an error. A reading of the token caches that of the storage.
use migration_safety_engine.Api.Uri.{decimal}
use migration_safety_engine.Dict.{Dict, put}
use migration_safety_engine.Api.Effects.{
  Action, Method, Payload, Request, Response, World, is_ok, ok, pure, throw, lift,
}
use migration_safety_engine.Prelude.{
  Bool, Option, Text, [], false, if◌then◌else◌, lit, none, some, true, ◌++◌, ◌∷◌,
}
use migration_safety_engine.Api.Effects.{◌>>=◌}

pub record LoginData : Type 0 where
  pub token : Text
  pub role : Text

-- `if (token)` for a `string | null`
abbrev pub is_truthy : Option Text → Bool
is_truthy none = false
is_truthy (some []) = false
is_truthy (some (c ∷ s)) = true

abbrev pub base : Text
base = []

-- `if (tok) h['Authorization'] = …`
abbrev pub authorize : Option Text → Dict Text → Dict Text
authorize none h = h
authorize (some []) h = h
authorize (some (c ∷ s)) h = put (lit "Authorization") (lit "Bearer " ++ c ∷ s) h

abbrev pub json_headers : Dict Text
json_headers = (lit "Content-Type", lit "application/json") ∷ []

abbrev pub xhr_headers : Dict Text
xhr_headers = (lit "X-Requested-With", lit "XMLHttpRequest") ∷ []

module _ {Num : Type 0} where
  unfoldable pub set_token : Option Text → World Num → World Num
  set_token token w =
      if is_truthy token
      then record w { token = token; stored = token }
      else record w { token = token; stored = none }

  unfoldable pub get_token : World Num → Option Text × World Num
  get_token w =
      if is_truthy w.token then (w.token, w) else (w.stored, record w { token = w.stored })

  unfoldable pub headers : Dict Text → Action Num (Dict Text)
  unfolding get_token
  headers extra w = let (tok, w') = get_token w in (ok (authorize tok extra), w')

  abbrev pub request : Method → Text → Dict Text → Option (Payload Num) → Request Num
  request method url h body = record { method = method; url = url; headers = h; body = body }

  -- `if (!res.ok) throw new Error(`${what}${res.status}`)`
  unfoldable pub require_ok : {A : Type 0} → Text → Response A → Action Num Unit
  unfolding is_ok
  require_ok what res = if is_ok res then pure tt else throw (what ++ decimal res.status)

  -- `if (!res.ok) { const text = await res.text(); throw new Error(`${what}${res.status} ${text}`) }`
  unfoldable pub require_ok_text : {A : Type 0} → Text → Response A → Action Num Unit
  unfolding is_ok
  require_ok_text what res =
      if is_ok res
      then pure tt
      else (do text ← lift res.text; throw (what ++ (decimal res.status ++ (b' ' ∷ text))))
