-- ===== src/Drift/Scan.antt =====
-- The state and the handler of frontend/src/pages/DriftScanPage.tsx.
use migration_safety_engine.Api.Calls.{drift_scan}
use migration_safety_engine.Toast.Provider.{Provider, toast, error, success}
use migration_safety_engine.Types.Records.{MigrationPlan}
use migration_safety_engine.NewPlan.Form.{Host}
use migration_safety_engine.Types.Reports.{DriftReport}
use migration_safety_engine.Api.Effects.{Answer, Result-cases, World, ok, thrown}
use migration_safety_engine.Prelude.{
  Bool, Option, Text, [], ap, false, inl, inr, lit, none, refl, some, true, ◌≡◌,
}

pub record Scan (Num : Type 0) : Type 0 where
  pub json : Text
  pub error : Text
  pub scanning : Bool
  pub report : Option (DriftReport Num)
  pub world : World Num
  pub provider : Provider

module _ {Num : Type 0} where
  unfoldable pub set_json : Text → Scan Num → Scan Num
  set_json value s = record s { json = value }

  unfoldable pub scan_started : Scan Num → Scan Num
  scan_started s = record s { error = []; report = none; scanning = true }

  unfoldable pub scan_failed : Text → Scan Num → Scan Num
  unfolding toast
  scan_failed message s = record s {
    error = message;
    scanning = false;
    provider = toast error message s.provider;
  }

  unfoldable pub scan_done : DriftReport Num → Scan Num → Scan Num
  unfolding toast
  scan_done result s = record s {
    report = some result;
    scanning = false;
    provider = toast success (lit "Drift scan completed") s.provider;
  }

  unfoldable pub send_scan : MigrationPlan Num → Answer (DriftReport Num) → Scan Num → Scan Num
  unfolding scan_failed scan_done drift_scan
  send_scan plan answer s =
      let (r, w) = drift_scan plan answer s.world in
      elim r [
        | ok result ↦ scan_done result (record s { world = w })
        | thrown message ↦ scan_failed message (record s { world = w })
      ]

module _ {Num : Type 0} (H : Host Num) where
  -- `handleScan`
  unfoldable pub handle_scan : Answer (DriftReport Num) → Scan Num → Scan Num
  unfolding scan_started send_scan scan_failed
  handle_scan answer s = elim (H.parse_json s.json) [
    | ok plan ↦ send_scan plan answer (scan_started s)
    | thrown message ↦ scan_failed message (scan_started s)
  ]

  -- What a failed scan leaves: the message, one notification of it, and no report.
  pub record Failed (message : Text) (s t : Scan Num) : Type 0 where
    pub can_scan : t.scanning ≡ false
    pub shown_error : t.error ≡ message
    pub no_report : t.report ≡ none
    pub notified : t.provider ≡ toast error message s.provider

  pub record Reported (result : DriftReport Num) (s t : Scan Num) : Type 0 where
    pub can_scan : t.scanning ≡ false
    pub no_error : t.error ≡ []
    pub shown_report : t.report ≡ some result
    pub notified : t.provider ≡ toast success (lit "Drift scan completed") s.provider

  pub data Outcome (answer : Answer (DriftReport Num)) (s t : Scan Num) : Type 0 where
    no_plan :
        (message : Text)
        → H.parse_json s.json ≡ thrown message
        → t.world ≡ s.world
        → Failed message s t
        → Outcome answer s t
    refused :
        (plan : MigrationPlan Num) (message : Text)
        → H.parse_json s.json ≡ ok plan
        → drift_scan plan answer s.world ≡ (thrown message, t.world)
        → Failed message s t
        → Outcome answer s t
    reported :
        (plan : MigrationPlan Num) (result : DriftReport Num)
        → H.parse_json s.json ≡ ok plan
        → drift_scan plan answer s.world ≡ (ok result, t.world)
        → Reported result s t
        → Outcome answer s t

  send_scan-Outcome :
      (plan : MigrationPlan Num) (answer : Answer (DriftReport Num)) (s : Scan Num)
      → H.parse_json s.json ≡ ok plan
      → Outcome answer s (send_scan plan answer (scan_started s))
  unfolding send_scan scan_started scan_failed scan_done
  send_scan-Outcome plan answer s h =
      let w = (drift_scan plan answer s.world).1 in
      elim (Result-cases (drift_scan plan answer s.world).0) [
        | inl (m, e) ↦
            rw (e, send_scan)
              (refused plan m h (ap (λ r. (r, w)) e)
                (record { can_scan = refl; shown_error = refl; no_report = refl; notified = refl }))
        | inr (result, e) ↦
            rw (e, send_scan)
              (reported plan result h (ap (λ r. (r, w)) e)
                (record { can_scan = refl; no_error = refl; shown_report = refl; notified = refl }))
      ]

  -- A scan ends in one of three ways, with one new notification, and can be run again after each. A text
  -- that is no plan sends nothing, and a failed call shows its message; the report of an earlier scan is
  -- gone in both cases. Otherwise the new report is shown, and no error.
  pub handle_scan-Outcome :
      (answer : Answer (DriftReport Num)) (s : Scan Num) → Outcome answer s (handle_scan answer s)
  unfolding handle_scan scan_started scan_failed
  handle_scan-Outcome answer s = elim (Result-cases (H.parse_json s.json)) [
    | inl (m, e) ↦
        rw (e, handle_scan)
          (no_plan m e refl
            (record { can_scan = refl; shown_error = refl; no_report = refl; notified = refl }))
    | inr (plan, e) ↦ rw (e, handle_scan) (send_scan-Outcome plan answer s e)
  ]
