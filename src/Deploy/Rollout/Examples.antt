-- ===== src/Deploy/Rollout/Examples.antt =====
-- A renewal that reaches three bindings.
use certpilot.Deploy.Queue.{enqueue_deployment}
use certpilot.Prelude.{
  ◌+◌, ◌≤◌, ◌≡◌, ◌≢◌, refl, true, false, Bool, none, some, List, [], ◌∷◌, Text, arith, pos, All,
  length,
}
use certpilot.Renewal.Certificate.{Certificate, CertificateStatus, KeyCustody}
use certpilot.Deploy.Job.{Reason}
use certpilot.Deploy.Queue.Outstanding.{load}
use certpilot.Deploy.Rollout.{
  CertificateDeployment, Trigger, enqueue_for, is_chosen, settled, total_of,
}
use certpilot.Deploy.Rollout.Queued.{OneEach, enqueue_for-HasOne}

abbrev renewed : Certificate
renewed = record {
  id = 7;
  common_name = 70;
  fingerprint_sha256 = 77;
  ca_account_id = none;
  auto_renew = true;
  key_custody = KeyCustody.cert_pilot;
  status = CertificateStatus.issued;
  not_before = some 1;
  not_after = some 9000;
  days_remaining = pos 90;
  renewal_scheduled_at = none;
  renewal_lead_days = 30;
}

abbrev renewal : Trigger
renewal = record {
  cert = renewed;
  reason = Reason.renewal;
  actor = none;
  actor_email = none;
  now = 20;
  order_of = λ target. none;
  fresh = λ n. 100 + n;
  clock = λ n. 20 + n;
}

abbrev binding : Text → Bool → Bool → CertificateDeployment
binding id is_enabled deploy_on_renewal = record {
  id = id;
  certificate_id = 7;
  target_id = 40 + id;
  is_enabled = is_enabled;
  deploy_on_renewal = deploy_on_renewal;
  deployed_fingerprint = 76;
}

abbrev bindings : List CertificateDeployment
bindings = binding 1 true true ∷ binding 2 true false ∷ binding 3 false true ∷ []

-- One is queued, one has not opted in, one is switched off.
queues_one : length (enqueue_for renewal bindings []).queue ≡ 1
unfolding enqueue_for enqueue_deployment
queues_one = refl

bindings_have_ids : All (λ b. b.id ≢ 0) bindings
bindings_have_ids = (λ e. ground (arith, e), (λ e. ground (arith, e), (λ e. ground (arith, e), tt)))

no_jobs-OneEach : OneEach []
no_jobs-OneEach k = ground arith

-- Nothing is settled while a place holds the certificate from before.
not_settled : settled 20 77 none bindings ≡ (false, none)
unfolding settled
not_settled = refl

enqueue_for-HasOne_example :
    ((enqueue_for renewal bindings []).failure ≡ none)
    × OneEach (enqueue_for renewal bindings []).queue
    × All
        (λ b. is_chosen renewal b ≡ true → load b.id (enqueue_for renewal bindings []).queue ≡ 1)
        bindings
    × ((k : Text) → load k [] ≤ load k (enqueue_for renewal bindings []).queue)
    × ((enqueue_for renewal bindings []).rollout.queued + 0
        ≡ length (enqueue_for renewal bindings []).queue)
    × (total_of (enqueue_for renewal bindings []).rollout ≡ 3)
enqueue_for-HasOne_example =
    enqueue_for-HasOne renewal bindings [] bindings_have_ids no_jobs-OneEach
