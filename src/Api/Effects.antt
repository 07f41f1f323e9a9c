-- ===== src/Api/Effects.antt =====
-- What `ApiClient` acts on: its own token, the entry `mse_token` of the local storage, and the
-- network. A request is recorded when it is sent, and its answer is an argument of the call.
-- `async` methods are actions that return a value or throw an error with a message.
use migration_safety_engine.Types.Records.{MigrationPlan}
use migration_safety_engine.Dict.{Dict}
use migration_safety_engine.Prelude.{
  Bool, List, Option, Text, [], leb, ℕ, ◌&&◌, ◌++◌, ◌∷◌, inl, inr, refl, ◌≡◌, ◌⊎◌,
}

pub data Result {ℓ} (A : Type ℓ) : Type ℓ where
  ok : A → Result A
  thrown : Text → Result A

pub data Method : Type 0 where
  http_get http_post http_delete : Method

-- The value that a request's body is the JSON of.
pub data Payload (Num : Type 0) : Type 0 where
  credentials : (username password : Text) → Payload Num
  plan_payload : MigrationPlan Num → Payload Num
  ids_payload : List Text → Payload Num

pub record Request (Num : Type 0) : Type 0 where
  pub method : Method
  pub url : Text
  pub headers : Dict Text
  pub body : Option (Payload Num)

-- `text()` and `json()` may fail; `json()` yields the type that the code declares for it.
pub record Response (A : Type 0) : Type 0 where
  pub status : ℕ
  pub text : Result Text
  pub json : Result A

-- What a call of `fetch` comes to.
pub data Answer (A : Type 0) : Type 0 where
  rejected : Text → Answer A
  responded : Response A → Answer A

-- `res.ok`
unfoldable pub is_ok : {A : Type 0} → Response A → Bool
is_ok r = leb 200 r.status && leb r.status 299

pub record World (Num : Type 0) : Type 0 where
  pub token : Option Text
  pub stored : Option Text
  pub sent : List (Request Num)

abbrev pub Action : Type 0 → Type 0 → Type 0
Action Num A = World Num → Result A × World Num

infixl 5 ◌>>=◌ ◌>>◌
abbrev pub ◌>>=◌ : {Num A B : Type 0} → Action Num A → (A → Action Num B) → Action Num B
◌>>=◌ m f w = let (r, w') = m w in elim r [ ok a ↦ f a w' | thrown message ↦ (thrown message, w') ]

abbrev pub ◌>>◌ : {Num A B : Type 0} → Action Num A → Action Num B → Action Num B
m >> k = m >>= λ _. k

abbrev pub pure : {Num A : Type 0} → A → Action Num A
pure a w = (ok a, w)

abbrev pub throw : {Num A : Type 0} → Text → Action Num A
throw message w = (thrown message, w)

abbrev pub lift : {Num A : Type 0} → Result A → Action Num A
lift r w = (r, w)

abbrev pub received : {A : Type 0} → Answer A → Result (Response A)
received (rejected message) = thrown message
received (responded r) = ok r

-- `await fetch(…)`
unfoldable pub fetch : {Num A : Type 0} → Answer A → Request Num → Action Num (Response A)
fetch answer request w = (received answer, record w { sent = w.sent ++ request ∷ [] })

module _ {A : Type 0} where
  pub Result-cases : (r : Result A) → ((m : Text) × (r ≡ thrown m)) ⊎ ((a : A) × (r ≡ ok a))
  Result-cases (ok a) = inr (a, refl)
  Result-cases (thrown m) = inl (m, refl)
