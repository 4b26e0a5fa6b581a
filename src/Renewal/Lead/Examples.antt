-- ===== src/Renewal/Lead/Examples.antt =====
-- When certificates of six days and of a year are due.
use mathlib.Core.List.{Perm}
use certpilot.Prelude.{
  Chosen, ℕ, ◌+◌, ◌*◌, ◌≡◌, refl, List, [], ◌∷◌, true, Option, none, some, Time, arith, pos,
}
use certpilot.Renewal.Certificate.{Certificate, KeyCustody, CertificateStatus}
use certpilot.Renewal.Lead.{day, renewal_lead, is_due, certificates_due}
use certpilot.Renewal.Lead.Due.{IsSorted, certificates_due-IsSorted}
use certpilot.Renewal.Lead.Chosen.{Due, certificates_due-Chosen}
use certpilot.Renewal.Lead.Bounds.{renewal_lead-eq, due_at_lead, due_at_floor}

abbrev issued_on : ℕ → ℕ → Option Time → KeyCustody → Certificate
issued_on from days advised custody = record {
  id = 1;
  common_name = 2;
  fingerprint_sha256 = 3;
  ca_account_id = none;
  auto_renew = true;
  key_custody = custody;
  status = CertificateStatus.issued;
  not_before = some (from * day);
  not_after = some ((from + days) * day);
  days_remaining = pos days;
  renewal_scheduled_at = advised;
  renewal_lead_days = 0;
}

-- A certificate of six days renews with two days left, under the default lead of thirty.
six_days : renewal_lead (100 * day) (106 * day) 30 ≡ pos (2 * day)
six_days = renewal_lead-eq (100 * day) (106 * day) 30 (omega arith)

due_at_lead_example : is_due (440 * day) 30 (issued_on 100 365 none KeyCustody.cert_pilot) ≡ true
due_at_lead_example =
    due_at_lead (440 * day) 30 (issued_on 100 365 none KeyCustody.cert_pilot) (100 * day)
      (465 * day) refl refl refl refl refl (omega arith) (omega arith) (omega arith)

due_at_floor_example :
    is_due (460 * day) 30 (issued_on 100 365 (some (464 * day)) KeyCustody.cert_pilot) ≡ true
due_at_floor_example =
    due_at_floor (460 * day) 30 (issued_on 100 365 (some (464 * day)) KeyCustody.cert_pilot)
      (100 * day) (465 * day) (464 * day) refl refl refl refl refl (omega arith) (omega arith)
      (omega arith)

abbrev two_certificates : List Certificate
two_certificates =
    issued_on 100 365 none KeyCustody.cert_pilot ∷ issued_on 100 90 none KeyCustody.agent ∷ []

certificates_due-Chosen_example :
    (chosen : List Certificate) × Chosen (Due (440 * day) 30) two_certificates chosen
    × Perm (certificates_due (440 * day) 30 two_certificates) chosen
certificates_due-Chosen_example = certificates_due-Chosen (440 * day) 30 two_certificates

certificates_due-IsSorted_example : IsSorted (certificates_due (440 * day) 30 two_certificates)
certificates_due-IsSorted_example = certificates_due-IsSorted (440 * day) 30 two_certificates
