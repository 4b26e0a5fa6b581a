-- ===== src/Renewal/Worker/Examples.antt =====
-- Runs of one job.
use certpilot.Prelude.{
  ◌*◌, ◌+◌, ◌≤◌, ◌<◌, Time, minute, mul_int64-small, ◌≡◌, refl, inl, inr, true, none, some, [], ◌∷◌,
  Text, arith, hour, pos, if◌then◌else◌, ◌==◌,
}
use certpilot.Renewal.Job.{Reason, RenewalJob, running, succeeded}
use certpilot.Renewal.Store.{count_recent_renewals, count_recent_from, spent_by, earliest}
use certpilot.Renewal.Certificate.{Certificate, KeyCustody, CertificateStatus}
use certpilot.Renewal.Pacing.Exact.{exact, exact-FloatLaws}
use certpilot.Renewal.Worker.{
  Account, rate_window, window_of, limited_by, slot_opens, World, Run, Renewer, already_renewed,
  execute, conclude,
}
use certpilot.Renewal.Worker.Outcome.{AllReleased, execute-Released}
use certpilot.Renewal.Worker.Escalation.{Announces, execute-Announces}
use certpilot.Renewal.Worker.Quota.{in_window_at, limited_by-slot_opens}
use certpilot.Renewal.Worker.Retry.{AllRetried, execute-asks_no_ca, conclude-Retried}

abbrev this_run : Run
this_run = record {
  worker = 9;
  started = 1000 * hour;
  ended = 1001 * hour;
  clock = 1001 * hour;
  bytes = some (1, 2);
  floats = exact;
  texts = record { certificate_gone = 501; key_held = λ c. 502; limited = λ a n t. 503 };
  has_broker = true;
}

abbrev taken : RenewalJob
taken = record {
  id = 4;
  certificate_id = 21;
  reason = Reason.scheduled;
  status = running;
  run_after = 10;
  attempts = 3;
  locked_by = some 9;
  locked_until = some (1001 * hour);
  last_error = 0;
  attempt_log = [];
  not_after = some (1100 * hour);
  ca_account_id = none;
  fingerprint_at_enqueue = 77;
  escalated_at = none;
  triggered_by = none;
  actor_email = none;
  started_at = none;
  completed_at = none;
  created_at = 0;
  updated_at = 0;
}

abbrev with_fingerprint : Text → Certificate
with_fingerprint f = record {
  id = 21;
  common_name = 2;
  fingerprint_sha256 = f;
  ca_account_id = none;
  auto_renew = true;
  key_custody = KeyCustody.cert_pilot;
  status = CertificateStatus.issued;
  not_before = none;
  not_after = some (1100 * hour);
  days_remaining = pos 4;
  renewal_scheduled_at = none;
  renewal_lead_days = 0;
}

abbrev world_of : Text → World
world_of f = record {
  jobs = taken ∷ [];
  certificates = λ id. if id == 21 then some (with_fingerprint f) else none;
  accounts = λ id. none;
  published = [];
}

-- A renewer that fails, and one that succeeds.
abbrev failing : Renewer
failing id w = (w, some 404)

abbrev working : Renewer
working id w = (w, none)

execute-Released_example : AllReleased 4 (execute this_run failing taken (world_of 77))
execute-Released_example =
    execute-Released this_run failing taken (λ w h. h) (world_of 77) (omega arith)

execute-Announces_example :
    Announces taken (world_of 77) (execute this_run failing taken (world_of 77))
execute-Announces_example =
    execute-Announces this_run failing taken (λ w. record { distinct = λ h. h; silent = refl })
      (world_of 77) (omega arith)

execute-asks_no_ca_example :
    execute this_run failing taken (world_of 78) ≡ execute this_run working taken (world_of 78)
unfolding already_renewed
execute-asks_no_ca_example =
    execute-asks_no_ca this_run failing working taken (world_of 78) (inr (inl refl))

conclude-Retried_example :
    AllRetried this_run taken 404
      (conclude this_run taken (with_fingerprint 77) (world_of 77) (some 404))
conclude-Retried_example =
    conclude-Retried this_run taken (with_fingerprint 77) (world_of 77) 404 exact-FloatLaws
      (omega arith, omega arith) (omega arith)

-- An account with a limit of one renewal a day, and the day's renewal.
abbrev small_account : Account
small_account = record { id = 5; renewal_rate_limit = pos 1; renewal_rate_window_hours = pos 24 }

abbrev renewed : World
renewed = record (world_of 77) {
  jobs =
      record taken {
        id = 3;
        status = succeeded;
        locked_by = none;
        locked_until = none;
        ca_account_id = some 5;
        completed_at = some (990 * hour);
      }
      ∷ taken
      ∷ [];
}

one_day : rate_window small_account ≡ 24 * hour
unfolding rate_window window_of
one_day = rw (mul_int64-small 24 hour (omega arith)) refl

abbrev next_slot : Time
next_slot = 1014 * hour + minute

held_back : limited_by this_run renewed (1000 * hour) small_account ≡ some (next_slot, 503)
unfolding limited_by slot_opens count_recent_renewals count_recent_from spent_by earliest
held_back = rw (one_day) refl

limited_by-slot_opens_example :
    (1000 * hour + minute ≤ next_slot)
    × (in_window_at small_account renewed next_slot
        < in_window_at small_account renewed (1000 * hour))
    × (1 ≤ 1)
    × (1 ≤ in_window_at small_account renewed (1000 * hour))
limited_by-slot_opens_example =
    limited_by-slot_opens this_run renewed (1000 * hour) small_account held_back
