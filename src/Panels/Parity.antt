-- ===== src/Panels/Parity.antt =====
-- What frontend/src/components/DataParityPanel.tsx shows of a migration. `Figures` is what it takes from the
-- language's numbers: `===`, the truth of a number, and its texts.
use mathlib.Core.Option
use migration_safety_engine.Types.Records.{MigrationRecord}
use migration_safety_engine.Prelude.{
  Bool, List, Option, Text, [], all, false, get_elem?, if◌then◌else◌, lit, none, or_else, refl,
  some, text_eq, true, ◌++◌, ◌∷◌, ◌≡◌, map, ap, arith, text_eq_iff, ◌↔◌,
}

pub record Figures (Num : Type 0) : Type 0 where
  pub same : Num → Num → Bool
  pub zero_num : Num
  pub is_truthy_num : Num → Bool
  -- `n.toLocaleString()` and `${n}`
  pub locale : Num → Text
  pub shown : Num → Text

pub record VerificationCheck : Type 0 where
  pub name : Text
  pub description : Text
  pub result : Text
  pub passed : Bool

pub record MutationStats (Num : Type 0) : Type 0 where
  pub deletes : Num
  pub updates : Num
  pub alters : Num

-- `===` of values that may be undefined
abbrev pub same_option {ℓ} : {A : Type ℓ} → (A → A → Bool) → Option A → Option A → Bool
same_option same none none = true
same_option same (some a) (some b) = same a b
same_option same _ _ = false

-- `s || d`
abbrev pub text_or : Option Text → Text → Text
text_or none d = d
text_or (some []) d = d
text_or (some (c ∷ s)) d = c ∷ s

abbrev pub flag_text : Option Bool → Text → Text → Text
flag_text (some true) valid invalid = valid
flag_text _ valid invalid = invalid

module _ {Num : Type 0} (G : Figures Num) where
  open G use {same, zero_num, is_truthy_num, locale, shown}

  -- `n || 0`
  unfoldable pub or_zero : Option Num → Num
  or_zero none = zero_num
  or_zero (some n) = if is_truthy_num n then n else zero_num

  -- `n?.toLocaleString() || '0'`
  unfoldable pub rows_text : Option Num → Text
  rows_text n = text_or (Option.map locale n) (lit "0")

  unfoldable pub verification_checks : MigrationRecord Num → List VerificationCheck
  unfolding or_zero rows_text
  verification_checks m =
      record {
        name = lit "Row Count Match";
        description = lit "Compare source and destination row counts";
        result = rows_text m.source_rows ++ (lit " = " ++ rows_text m.dest_rows);
        passed = same_option same m.source_rows m.dest_rows;
      }
      ∷ record {
        name = lit "Checksum Match";
        description = lit "CRC32 checksum of all rows";
        result =
            text_or m.source_checksum (0x2014 ∷ [])
            ++ (lit " = " ++ text_or m.dest_checksum (0x2014 ∷ []));
        passed = same_option text_eq m.source_checksum m.dest_checksum;
      }
      ∷ record {
        name = lit "NULL Value Check";
        description = lit "Verify NULL handling";
        result = shown (or_zero m.null_mismatches) ++ lit " mismatches";
        passed = same (or_zero m.null_mismatches) zero_num;
      }
      ∷ record {
        name = lit "Type Conversion";
        description = lit "Verify data type conversions";
        result =
            flag_text m.type_conversion_valid (lit "All conversions valid")
              (lit "Invalid conversions detected");
        passed = or_else m.type_conversion_valid true;
      }
      ∷ record {
        name = lit "FK Integrity";
        description = lit "Verify foreign key constraints";
        result =
            flag_text m.fk_integrity_valid (lit "All constraints satisfied")
              (lit "FK violations detected");
        passed = or_else m.fk_integrity_valid true;
      }
      ∷ []

  unfoldable pub mutations : MigrationRecord Num → MutationStats Num
  unfolding or_zero
  mutations m = record {
    deletes = or_zero m.deletes_processed;
    updates = or_zero m.updates_processed;
    alters = or_zero m.alters_handled;
  }

  -- `allPassed`: the badge says VERIFIED
  unfoldable pub all_passed : MigrationRecord Num → Bool
  unfolding verification_checks
  all_passed m = all (λ c. c.passed) (verification_checks m)

  abbrev pub results : MigrationRecord Num → List Text
  results m = map (λ c. c.result) (verification_checks m)

-- Both values are missing, or both are there and the same.
pub data AgreeBy {A : Type 0} (same : A → A → Bool) : Option A → Option A → Type 0 where
  both_missing : AgreeBy same none none
  both_same : (a b : A) → same a b ≡ true → AgreeBy same (some a) (some b)

same_of_AgreeBy :
    {A : Type 0} (same : A → A → Bool) (o u : Option A)
    → AgreeBy same o u
    → same_option same o u ≡ true
same_of_AgreeBy same _ _ both_missing = refl
same_of_AgreeBy same _ _ (both_same a b h) = h

AgreeBy_of_same :
    {A : Type 0} (same : A → A → Bool) (o u : Option A)
    → same_option same o u ≡ true
    → AgreeBy same o u
AgreeBy_of_same same none none h = both_missing
AgreeBy_of_same same none (some b) h = absurd (ground arith)
AgreeBy_of_same same (some a) none h = absurd (ground arith)
AgreeBy_of_same same (some a) (some b) h = both_same a b h

same_option-text_eq : (o u : Option Text) → (same_option text_eq o u ≡ true) ↔ (o ≡ u)
same_option-text_eq none none = (λ h. refl, λ h. refl)
same_option-text_eq none (some t) = (λ h. absurd (ground arith), λ h. absurd (ground arith))
same_option-text_eq (some s) none = (λ h. absurd (ground arith), λ h. absurd (ground arith))
same_option-text_eq (some s) (some t) =
    (λ h. ap some ((text_eq_iff s t).0 h), λ h. (text_eq_iff s t).1 (ground (arith, h)))

-- A flag that is not false, by its text: that of a failure stands exactly for a missing flag.
flag_text_lem :
    (o : Option Bool) (valid invalid : Text)
    → text_eq valid invalid ≡ false
    → (or_else o true ≡ true) ↔ ((some (flag_text o valid invalid) ≡ some invalid) ↔ (o ≡ none))
flag_text_lem none valid invalid ne = (λ h. (λ k. refl, λ k. refl), λ h. refl)
flag_text_lem (some true) valid invalid ne = (
  λ h. (
    λ k. absurd (ground (arith, ne, k, text_eq_iff valid invalid)),
    λ k. absurd (ground (arith, k)),
  ),
  λ h. refl,
)
flag_text_lem (some false) valid invalid ne =
    (λ h. absurd (ground (arith, h)), λ h. absurd (ground (arith, h.0 refl)))

module _ {Num : Type 0} (G : Figures Num) where
  open G use {same, zero_num}

  -- What the badge VERIFIED says of a migration.
  pub record Agrees (m : MigrationRecord Num) : Type 0 where
    pub rows : AgreeBy same m.source_rows m.dest_rows
    pub checksums : m.source_checksum ≡ m.dest_checksum
    pub no_mismatch : same (or_zero G m.null_mismatches) zero_num ≡ true
    pub conversions :
        (get_elem? (results G m) 3 ≡ some (lit "Invalid conversions detected"))
        ↔ (m.type_conversion_valid ≡ none)
    pub foreign_keys :
        (get_elem? (results G m) 4 ≡ some (lit "FK violations detected"))
        ↔ (m.fk_integrity_valid ≡ none)

  -- A migration is shown as verified exactly if its numbers of rows are both missing or the same, so are its
  -- checksums, there is no NULL mismatch, and the texts of the last two checks report a failure exactly
  -- where the server has sent no result of the check.
  pub all_passed-Agrees : (m : MigrationRecord Num) → (all_passed G m ≡ true) ↔ Agrees m
  unfolding all_passed verification_checks text_eq
  all_passed-Agrees m =
      let b = same_option-text_eq m.source_checksum m.dest_checksum in
      let d =
        flag_text_lem m.type_conversion_valid (lit "All conversions valid")
          (lit "Invalid conversions detected") refl in
      let e =
        flag_text_lem m.fk_integrity_valid (lit "All constraints satisfied")
          (lit "FK violations detected") refl in
      (
        λ h. record {
          rows = AgreeBy_of_same same m.source_rows m.dest_rows (ground (arith, h));
          checksums = b.0 (ground (arith, h));
          no_mismatch = ground (arith, h);
          conversions = d.0 (ground (arith, h));
          foreign_keys = e.0 (ground (arith, h));
        },
        λ k. ground (
          arith,
          same_of_AgreeBy same m.source_rows m.dest_rows k.rows,
          b.1 k.checksums,
          k.no_mismatch,
          d.1 k.conversions,
          e.1 k.foreign_keys,
        ),
      )
