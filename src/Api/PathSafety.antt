-- ===== src/Api/PathSafety.antt =====
-- The table name in the path of `fetchSchema` (frontend/src/lib/api.ts).
use migration_safety_engine.Api.Session.{visible}
use migration_safety_engine.Api.Client.{request, authorize}
use migration_safety_engine.Api.Calls.{fetch_schema}
use migration_safety_engine.Types.Records.{SchemaResponse}
use migration_safety_engine.Api.Effects.{Answer, World, http_get, thrown}
use mathlib.Core.Path.{subst}
use migration_safety_engine.Api.Uri.{
  encode_uri_component, escape_byte, escape_point, hex_digit, is_unreserved, is_high, is_low,
  prefixed, paired,
}
use migration_safety_engine.Prelude.{
  All, Text, arith, refl, some, true, ℕ, ◌%◌, ◌/◌, ◌<◌, ◌==◌, ◌||◌, ◌≡◌, All-append, Bool-cases,
  Option, [], inl, inr, ltb, none, ◌++◌, ◌∷◌, Option-cases, lit,
}

-- A character that neither ends a path segment nor separates it from the rest of the URL.
abbrev pub IsSegmentChar : ℕ → Type 0
IsSegmentChar c = (is_unreserved c || c == b'%') ≡ true

hex_digit-IsSegmentChar : (n : ℕ) → n < 16 → IsSegmentChar (hex_digit n)
unfolding hex_digit is_unreserved
hex_digit-IsSegmentChar n h = ground arith

escape_byte-IsSegmentChar : (b : ℕ) → All IsSegmentChar (escape_byte b)
unfolding escape_byte
escape_byte-IsSegmentChar b = (
  unfold is_unreserved in refl,
  (
    hex_digit-IsSegmentChar (b / 16 % 16) (omega arith),
    (hex_digit-IsSegmentChar (b % 16) (omega arith), tt),
  ),
)

escape_bytes-IsSegmentChar :
    (b : ℕ) (t : Text) → All IsSegmentChar t → All IsSegmentChar (escape_byte b ++ t)
escape_bytes-IsSegmentChar b t h =
    All-append IsSegmentChar (escape_byte b) t (escape_byte-IsSegmentChar b) h

escape_point-IsSegmentChar : (p : ℕ) → All IsSegmentChar (escape_point p)
unfolding escape_point
escape_point-IsSegmentChar p = elim (Bool-cases (ltb p 0x80)) [
  | inl one ↦ rw one (escape_byte-IsSegmentChar p)
  | inr more ↦ rw more (elim (Bool-cases (ltb p 0x800)) [
    | inl two ↦ rw two (search (escape_byte-IsSegmentChar, escape_bytes-IsSegmentChar))
    | inr more' ↦ rw more' (elim (Bool-cases (ltb p 0x10000)) [
      | inl three ↦ rw three (search (escape_byte-IsSegmentChar, escape_bytes-IsSegmentChar))
      | inr four ↦ rw four (search (escape_byte-IsSegmentChar, escape_bytes-IsSegmentChar))
    ])
  ])
]

prefixed-All :
    (x : Text) (o : Option Text) (t : Text)
    → All IsSegmentChar x
    → ((r : Text) → o ≡ some r → All IsSegmentChar r)
    → prefixed x o ≡ some t
    → All IsSegmentChar t
prefixed-All x none t hx ho e = cc
prefixed-All x (some r) t hx ho e =
    let same : x ++ r ≡ t = ground arith in rw same at (All-append IsSegmentChar x r hx (ho r refl))

unreserved-IsSegmentChar : (c : ℕ) → is_unreserved c ≡ true → All IsSegmentChar (c ∷ [])
unreserved-IsSegmentChar c h = (rw h refl, tt)

encode_uri_component-IsSegment :
    (s t : Text) → encode_uri_component s ≡ some t → All IsSegmentChar t
unfolding encode_uri_component
encode_uri_component-IsSegment [] t e = ground arith
encode_uri_component-IsSegment (c ∷ []) t e = elim (Bool-cases (is_unreserved c)) [
  | inl plain ↦
      let same : c ∷ [] ≡ t = ground arith in
      subst (All IsSegmentChar) same (unreserved-IsSegmentChar c plain)
  | inr other ↦
      let same : escape_point c ≡ t = ground arith in
      subst (All IsSegmentChar) same (escape_point-IsSegmentChar c)
]
encode_uri_component-IsSegment (c ∷ d ∷ s) t e =
    let rest = encode_uri_component-IsSegment (d ∷ s) in
    let after = encode_uri_component-IsSegment s in
    elim (Bool-cases (is_unreserved c)) [
      | inl plain ↦
          prefixed-All (c ∷ []) _ t (unreserved-IsSegmentChar c plain) rest (rw plain at e)
      | inr other ↦ elim (Bool-cases (is_low c)) [
        | inl low ↦ absurd (ground arith)
        | inr not_low ↦ elim (Bool-cases (is_high c)) [
          | inl high ↦ elim (Bool-cases (is_low d)) [
            | inl pair ↦
                prefixed-All (escape_point (paired c d)) (encode_uri_component s) t
                  (escape_point-IsSegmentChar (paired c d)) after (ground arith)
            | inr lone ↦ absurd (ground arith)
          ]
          | inr not_high ↦
              prefixed-All (escape_point c) (encode_uri_component (d ∷ s)) t
                (escape_point-IsSegmentChar c) rest (ground arith)
        ]
      ]
    ]

module _ {Num : Type 0} where
  -- What a call of `fetchSchema` sends: one request, with a path of which only characters of a segment
  -- depend on the name, or nothing.
  pub data SendsSegment (table : Text) (answer : Answer SchemaResponse) (w : World Num)
      : Type 0 where
    sends :
        (t : Text)
        → All IsSegmentChar t
        → (fetch_schema table answer w).1.sent
          ≡ w.sent ++ request http_get (lit "/schema/" ++ t) (authorize (visible w) []) none ∷ []
        → SendsSegment table answer w
    sends_nothing :
        (message : Text)
        → fetch_schema table answer w ≡ (thrown message, w)
        → SendsSegment table answer w

  -- Whatever the table name, `fetchSchema` throws and sends nothing, or sends one request, and what follows
  -- `/schema/` in its path are unreserved characters and `%`: the name adds no `/`, `?` or `#`.
  pub fetch_schema-SendsSegment :
      (table : Text) (answer : Answer SchemaResponse) (w : World Num) → SendsSegment table answer w
  unfolding fetch_schema
  fetch_schema-SendsSegment table answer w = elim (Option-cases (encode_uri_component table)) [
    | inl e ↦ sends_nothing (lit "URI malformed") (rw e refl)
    | inr (t, e) ↦ sends t (encode_uri_component-IsSegment table t e) (rw e (ground arith))
  ]
