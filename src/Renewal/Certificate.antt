-- ===== src/Renewal/Certificate.antt =====
-- core/store/models.go: what the renewal of a certificate reads of its row.
use certpilot.Prelude.{ℕ, Bool, Option, Text, Time, ℤ}

-- Who holds the private key. `unset` is the empty text of a row on which nobody recorded one.
pub data KeyCustody : Type 0 where
  unset cert_pilot agent external : KeyCustody

pub data CertificateStatus : Type 0 where
  pending issued expiring expired revoked renewal_failed : CertificateStatus

pub record Certificate : Type 0 where
  pub id : Text
  pub common_name : Text
  pub fingerprint_sha256 : Text
  pub ca_account_id : Option Text
  pub auto_renew : Bool
  pub key_custody : KeyCustody
  pub status : CertificateStatus
  pub not_before : Option Time
  pub not_after : Option Time
  pub days_remaining : ℤ
  pub renewal_scheduled_at : Option Time
  pub renewal_lead_days : ℕ
