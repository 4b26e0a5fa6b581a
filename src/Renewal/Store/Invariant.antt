-- ===== src/Renewal/Store/Invariant.antt =====
-- What holds of the renewal queue between two calls of the store.
use certpilot.Prelude.{
  ℕ, ◌-◌, ◌≤◌, ◌≡◌, refl, Bool, true, false, not, ◌&&◌, List, [], ◌∷◌, ◌++◌, Text, Time, Duration,
  arith, ◌==◌, if◌then◌else◌, length, is_none, All, total, Replaced, Replaced-total, Replaced-All,
  ok, length-drop,
}
use certpilot.Renewal.Job.{
  Status, RenewalAttempt, RenewalJob, is_outstanding, is_running, outstanding,
}
use certpilot.Renewal.Store.{
  max_attempt_log, is_ready, leased, logged, completed, deferred_job, extend_one, cancel_one,
}

abbrev pub counts_for : Text → RenewalJob → ℕ
counts_for cert j = if j.certificate_id == cert && outstanding j then 1 else 0

abbrev pub counts_id : Text → RenewalJob → ℕ
counts_id id j = if j.id == id then 1 else 0

-- How many outstanding jobs a certificate has.
abbrev pub load : Text → List RenewalJob → ℕ
load cert jobs = total (counts_for cert) jobs

abbrev pub copies : Text → List RenewalJob → ℕ
copies id jobs = total (counts_id id) jobs

-- A row's lease stands exactly while it runs, and its log is within the limit.
pub record IsSound (j : RenewalJob) : Type 0 where
  pub holder : is_none j.locked_by ≡ not (is_running j.status)
  pub timed : is_none j.locked_until ≡ not (is_running j.status)
  pub log_bounded : length j.attempt_log ≤ max_attempt_log

pub record Inv (jobs : List RenewalJob) : Type 0 where
  pub one_each : (cert : Text) → load cert jobs ≤ 1
  pub distinct : (id : Text) → copies id jobs ≤ 1
  pub sound : All IsSound jobs

pub empty-Inv : Inv []
empty-Inv = record { one_each = λ c. omega arith; distinct = λ i. omega arith; sound = tt }

-- A change of one row that keeps its name and its certificate, does not reopen it, and leaves it sound.
pub record Keeps (x y : RenewalJob) : Type 0 where
  pub same_id : y.id ≡ x.id
  pub same_certificate : y.certificate_id ≡ x.certificate_id
  pub not_reopened : outstanding y ≡ true → outstanding x ≡ true
  pub still_sound : IsSound x → IsSound y

pub Replaced-Inv :
    {x y : RenewalJob} {xs ys : List RenewalJob} → Replaced x y xs ys → Keeps x y → Inv xs → Inv ys
Replaced-Inv {x} {y} r k v = record {
  one_each = λ c. omega (arith, Replaced-total (counts_for c) r, v.one_each c, no_more c);
  distinct = λ i. omega (arith, Replaced-total (counts_id i) r, v.distinct i, same i);
  sound = Replaced-All IsSound r v.sound k.still_sound;
}
  where
    no_more : (c : Text) → counts_for c y ≤ counts_for c x
    no_more c = ground (arith, k)

    same : (i : Text) → counts_id i y ≡ counts_id i x
    same i = ground (arith, k)

pub logged_bounded :
    (log : List RenewalAttempt) (a : RenewalAttempt) → length (logged log a) ≤ max_attempt_log
unfolding logged
logged_bounded log a = ground (arith, length-drop (length (log ++ a ∷ []) - 50) (log ++ a ∷ []))

pub leased-Keeps :
    (worker : Text) (lease : Duration) (now clock : Time) (j : RenewalJob)
    → is_ready now j ≡ true
    → Keeps j (leased worker lease now clock j)
unfolding leased is_ready
leased-Keeps worker lease now clock j ready = record {
  same_id = refl;
  same_certificate = refl;
  not_reopened = λ e. ground arith;
  still_sound = λ s. record { holder = refl; timed = refl; log_bounded = s.log_bounded };
}

pub extend_one-Keeps :
    (id worker : Text) (until clock : Time) (x y : RenewalJob)
    → extend_one id worker until clock x ≡ ok y
    → Keeps x y
unfolding extend_one
extend_one-Keeps id worker until clock x y h = record {
  same_id = ground arith;
  same_certificate = ground arith;
  not_reopened = λ e. ground arith;
  still_sound = λ s. ground arith;
}

pub cancel_one-Keeps :
    (id : Text) (clock : Time) (x y : RenewalJob) → cancel_one id clock x ≡ ok y → Keeps x y
unfolding cancel_one
cancel_one-Keeps id clock x y h = record {
  same_id = ground arith;
  same_certificate = ground arith;
  not_reopened = λ e. ground arith;
  still_sound = λ s. ground arith;
}

pub completed-Keeps :
    (status : Status) (attempt : RenewalAttempt) (run_after : Time) (escalate : Bool) (clock : Time)
    (x : RenewalJob)
    → is_running status ≡ false
    → (is_outstanding status ≡ true → outstanding x ≡ true)
    → Keeps x (completed status attempt run_after escalate clock x)
unfolding completed
completed-Keeps status attempt run_after escalate clock x idle open_before = record {
  same_id = refl;
  same_certificate = refl;
  not_reopened = open_before;
  still_sound = λ s. record {
    holder = rw idle;
    timed = rw idle;
    log_bounded = logged_bounded x.attempt_log attempt;
  };
}

pub deferred_job-Keeps :
    (run_after : Time) (reason : Text) (escalate : Bool) (clock : Time) (x : RenewalJob)
    → outstanding x ≡ true
    → Keeps x (deferred_job run_after reason escalate clock x)
unfolding deferred_job
deferred_job-Keeps run_after reason escalate clock x open_before = record {
  same_id = refl;
  same_certificate = refl;
  not_reopened = λ e. open_before;
  still_sound =
      λ s. record { holder = refl; timed = refl; log_bounded = logged_bounded x.attempt_log _ };
}
