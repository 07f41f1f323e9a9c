-- ===== src/NewPlan/Messages.antt =====
-- The message of a failed submission of frontend/src/pages/NewPlan.tsx.
use migration_safety_engine.NewPlan.Page.{error_text}
use migration_safety_engine.Prelude.{
  Bool-cases, Lacks, List, Text, [], ap, arith, includes, inl, inr, lit, refl, split, split-Lacks,
  split-append, trim, trim_end, trim_start, true, ℕ, ◌++◌, ◌==◌, ◌∙◌, ◌∷◌, ◌≡◌, join,
}

split_not_empty : (c : ℕ) (s : Text) → (p : Text) × (ps : List Text) × (split c s ≡ p ∷ ps)
unfolding split
split_not_empty c [] = ([], [], refl)
split_not_empty c (d ∷ s) = elim (Bool-cases (d == c)) [
  | inl e ↦ rw e ([], split c s, refl)
  | inr e ↦ let (p, ps, h) = split_not_empty c s in rw e (rw h (d ∷ p, ps, refl))
]

join-push_head : (c d : ℕ) (p : Text) (ps : List Text) → join c ((d ∷ p) ∷ ps) ≡ d ∷ join c (p ∷ ps)
unfolding join
join-push_head c d p [] = refl
join-push_head c d p (q ∷ ps) = refl

join_nil_cons :
    (c d : ℕ) (s p : Text) (ps : List Text)
    → split c s ≡ p ∷ ps
    → d ≡ c
    → join c (split c s) ≡ s
    → join c ([] ∷ split c s) ≡ d ∷ s
unfolding join
join_nil_cons c d s p ps h e k = rw (h, join) (rw e (ap (λ t. c ∷ t) (rw h at k)))

-- Joining the parts of a text gives the text.
pub join-split : (c : ℕ) (s : Text) → join c (split c s) ≡ s
unfolding split
join-split c [] = unfold join in refl
join-split c (d ∷ s) =
    let rest = join-split c s in
    let (p, ps, h) = split_not_empty c s in
    elim (Bool-cases (d == c)) [
      | inl e ↦ let same : d ≡ c = ground arith in rw e (join_nil_cons c d s p ps h same rest)
      | inr e ↦ rw (e, h) (join-push_head c d p ps ∙ ap (λ t. d ∷ t) (rw h at rest))
    ]

-- A message that mentions JSON is shown with what follows its first colon as the reason; a message
-- without a colon is shown with no reason at all.
pub error_text_lem :
    (a b m : Text)
    → Lacks b':' a
    → Lacks b':' m
    → includes (lit "JSON") (a ++ b':' ∷ b) ≡ true
    → includes (lit "JSON") m ≡ true
    → (error_text (a ++ b':' ∷ b) ≡ lit "Invalid JSON: " ++ trim b)
      × (error_text m ≡ lit "Invalid JSON: ")
unfolding error_text
error_text_lem a b m ha hm ja jm = (
  rw ja (rw (split-append b':' a b ha) (rw (join-split b':' b) refl)),
  rw jm (rw (split-Lacks b':' m hm) (unfold join trim trim_start trim_end in refl)),
)
