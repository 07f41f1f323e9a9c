-- ===== src/Api/Uri.antt =====
-- The conversions of JavaScript that `ApiClient` builds its paths and messages with: a number in a
-- template literal, and `encodeURIComponent`.
use migration_safety_engine.Prelude.{
  Bool, Option, Text, [], if◌then◌else◌, leb, ltb, none, some, suc, zero, ℕ, ◌%◌, ◌&&◌, ◌*◌, ◌++◌,
  ◌+◌, ◌-◌, ◌/◌, ◌==◌, ◌||◌, ◌∷◌,
}

-- `${n}` of a natural number: its digits, on fuel that is more than their number
unfoldable pub digits_from : ℕ → ℕ → Text → Text
digits_from zero n acc = acc
digits_from (suc fuel) n acc =
    let digit = b'0' + n % 10 in
    let rest = digits_from fuel (n / 10) (digit ∷ acc) in if ltb n 10 then digit ∷ acc else rest

unfoldable pub decimal : ℕ → Text
unfolding digits_from
decimal n = digits_from (suc n) n []

-- the characters that `encodeURIComponent` leaves: A-Z a-z 0-9 - _ . ! ~ * ' ( )
unfoldable pub is_unreserved : ℕ → Bool
is_unreserved c =
    leb b'A' c && leb c b'Z'
    || leb b'a' c && leb c b'z'
    || leb b'0' c && leb c b'9'
    || c == 45
    || c == 95
    || c == 46
    || c == 33
    || c == 126
    || c == 42
    || c == 39
    || c == 40
    || c == 41

unfoldable pub hex_digit : ℕ → ℕ
hex_digit n = if ltb n 10 then b'0' + n else b'A' + (n - 10)

-- `%XX`
unfoldable pub escape_byte : ℕ → Text
escape_byte b = b'%' ∷ hex_digit (b / 16 % 16) ∷ hex_digit (b % 16) ∷ []

-- the UTF-8 bytes of a code point, each of them escaped
unfoldable pub escape_point : ℕ → Text
escape_point p =
    if ltb p 0x80
    then escape_byte p
    else if ltb p 0x800
    then escape_byte (0xc0 + p / 64) ++ escape_byte (0x80 + p % 64)
    else if ltb p 0x10000
    then (escape_byte (0xe0 + p / 4096)
        ++ (escape_byte (0x80 + p / 64 % 64) ++ escape_byte (0x80 + p % 64)))
    else escape_byte (0xf0 + p / 262144)
      ++ (escape_byte (0x80 + p / 4096 % 64)
          ++ (escape_byte (0x80 + p / 64 % 64) ++ escape_byte (0x80 + p % 64)))

abbrev pub is_high : ℕ → Bool
is_high c = leb 0xd800 c && leb c 0xdbff

abbrev pub is_low : ℕ → Bool
is_low c = leb 0xdc00 c && leb c 0xdfff

-- the code point of a surrogate pair
abbrev pub paired : ℕ → ℕ → ℕ
paired high low = 0x10000 + (high - 0xd800) * 1024 + (low - 0xdc00)

abbrev pub prefixed : Text → Option Text → Option Text
prefixed escaped none = none
prefixed escaped (some rest) = some (escaped ++ rest)

-- `encodeURIComponent(s)`; `none` is the `URIError` of a lone surrogate
unfoldable pub encode_uri_component : Text → Option Text
encode_uri_component [] = some []
encode_uri_component (c ∷ []) =
    if is_unreserved c
    then some (c ∷ [])
    else if is_high c || is_low c
    then none
    else some (escape_point c)
encode_uri_component (c ∷ d ∷ s) =
    let rest = encode_uri_component (d ∷ s) in
    let after = encode_uri_component s in
    if is_unreserved c
    then prefixed (c ∷ []) rest
    else if is_low c
    then none
    else if is_high c
    then (if is_low d then prefixed (escape_point (paired c d)) after else none)
    else prefixed (escape_point c) rest
