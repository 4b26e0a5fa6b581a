-- ===== src/Renewal/Scheduler/Examples.antt =====
-- A sweep over two certificates.
use certpilot.Prelude.{
  ℕ, ◌+◌, ◌*◌, ◌≡◌, ◌≤◌, true, none, some, List, [], ◌∷◌, Text, arith, pos, length, All,
}
use certpilot.Renewal.Job.{RenewalJob}
use certpilot.Renewal.Certificate.{Certificate, KeyCustody, CertificateStatus}
use certpilot.Renewal.Store.Invariant.{load}
use certpilot.Renewal.Lead.{day, is_due}
use certpilot.Renewal.Scheduler.{Readings, run_scan}
use certpilot.Renewal.Scheduler.Sweep.{OneEach, HasOne, run_scan-HasOne}

abbrev readings : Readings
readings = record { now = λ n. 440 * day + n; clock = λ n. 440 * day + n; fresh = λ n. 100 + n }

abbrev named : Text → ℕ → Certificate
named id days = record {
  id = id;
  common_name = 2;
  fingerprint_sha256 = 3;
  ca_account_id = none;
  auto_renew = true;
  key_custody = KeyCustody.cert_pilot;
  status = CertificateStatus.issued;
  not_before = some (100 * day);
  not_after = some ((100 + days) * day);
  days_remaining = pos days;
  renewal_scheduled_at = none;
  renewal_lead_days = 0;
}

abbrev stored_certificates : List Certificate
stored_certificates = named 7 350 ∷ named 8 900 ∷ []

abbrev swept : List RenewalJob
swept = (run_scan readings (440 * day) 30 stored_certificates []).0

run_scan-HasOne_example :
    OneEach swept
    × All (λ c. is_due (440 * day) 30 c ≡ true → HasOne swept c) stored_certificates
    × ((c : Text) → 0 ≤ load c swept)
    × ((run_scan readings (440 * day) 30 stored_certificates []).1 + 0 ≡ length swept)
run_scan-HasOne_example =
    run_scan-HasOne readings (440 * day) 30 stored_certificates [] (λ c. omega arith)
