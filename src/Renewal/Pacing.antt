-- ===== src/Renewal/Pacing.antt =====
-- core/engine/renewal/queue.go: when a failed renewal is tried again, and when it is escalated.
pub mod Deadline
pub mod Exact
mod Examples
use certpilot.Prelude.{
  ℕ, suc, ◌+◌, ◌-◌, ◌*◌, ◌/◌, ◌^◌, ◌≤◌, ◌<◌, ◌≡◌, ◌⊎◌, Bool, true, false, ◌||◌, Option, none, some,
  Time, Duration, minute, hour, ltb, leb, ◌==◌, if◌then◌else◌, ℤ, pos, negsuc, pos_part, neg_part,
  add_ℤ, max_int64,
}

abbrev pub base_retry_delay : Duration
base_retry_delay = 2 * minute

abbrev pub max_retry_delay : Duration
max_retry_delay = 6 * hour

abbrev pub min_retry_delay : Duration
min_retry_delay = minute

abbrev pub attempt_budget : ℕ
attempt_budget = 24

abbrev pub escalate_after_attempts : ℕ
escalate_after_attempts = 3

abbrev pub escalate_within_hours : ℕ
escalate_within_hours = 7 * 24

-- `a.Sub(b)` where `b` is before `a`: a Duration saturates at its largest value.
abbrev pub sub_time : Time → Time → Duration
sub_time a b = if ltb max_int64 (a - b) then max_int64 else a - b

-- randUnit in units of 1/65536: the first two of the bytes that rand.Read fills, or 0 if it fails.
pub rand_unit : Option (ℕ × ℕ) → ℤ
rand_unit none = pos 0
rand_unit (some (high, low)) = add_ℤ (pos (2 * (high * 256 + low))) (negsuc 65535)

-- The two conversions from float64 to time.Duration on the path. `to_duration n` converts a float with
-- the integral value n, which is exact for a delay doubled any number of times. `perturb delay u` is
-- time.Duration(float64(delay) * 0.2 * (u / 65536)).
pub record Floats : Type 0 where
  pub to_duration : ℕ → ℤ
  pub perturb : Duration → ℤ → ℤ

-- What is relied on: a conversion in range is exact, and one out of range gives the least or the
-- largest int64 (amd64 and arm64); for a delay up to the longest one and a draw of rand_unit the product
-- is within a nanosecond of its exact value.
pub record FloatLaws (f : Floats) : Type 0 where
  pub in_range : (n : ℕ) → n ≤ max_int64 → f.to_duration n ≡ pos n
  pub out_of_range :
      (n : ℕ)
      → max_int64 < n
      → (f.to_duration n ≡ negsuc max_int64) ⊎ (f.to_duration n ≡ pos max_int64)
  pub perturb_up :
      (d : Duration) (u : ℤ)
      → d ≤ max_retry_delay
      → pos_part u + neg_part u ≤ 65536
      → 327680 * pos_part (f.perturb d u) ≤ d * pos_part u + 327680
  pub perturb_down :
      (d : Duration) (u : ℤ)
      → d ≤ max_retry_delay
      → pos_part u + neg_part u ≤ 65536
      → 327680 * neg_part (f.perturb d u) ≤ d * neg_part u + 327680

pub capped : ℤ → Duration
capped (negsuc n) = max_retry_delay
capped (pos d) = if ltb max_retry_delay d || leb d 0 then max_retry_delay else d

-- `max(job.Attempts-1, 0)` is the difference on ℕ.
pub backoff : Floats → ℕ → Duration
unfolding capped
backoff f attempts = capped (f.to_duration (base_retry_delay * 2 ^ (attempts - 1)))

pub within_runway : Option Time → Time → Duration → Duration
within_runway none now delay = delay
within_runway (some not_after) now delay =
    if leb not_after now
    then min_retry_delay
    else let budgeted = sub_time not_after now / attempt_budget in
      if ltb budgeted delay then budgeted else delay

pub at_least_min : ℤ → Duration
at_least_min (negsuc n) = min_retry_delay
at_least_min (pos d) = if ltb d min_retry_delay then min_retry_delay else d

pub jittered : Floats → Option (ℕ × ℕ) → Duration → Duration
unfolding at_least_min rand_unit
jittered f bytes delay = at_least_min (add_ℤ (pos delay) (f.perturb delay (rand_unit bytes)))

pub retry_at : Floats → Option (ℕ × ℕ) → ℕ → Option Time → Time → Time
retry_at f bytes attempts not_after now =
    now + jittered f bytes (within_runway not_after now (backoff f attempts))

-- `RunwayHours(now) < escalateWithinHours`, in whole nanoseconds, at which the comparison is exact.
runs_out_within : Duration → Option Time → Time → Bool
runs_out_within limit none now = false
runs_out_within limit (some not_after) now = ltb not_after (now + limit)

pub should_escalate : ℕ → Option Time → Time → Bool
unfolding runs_out_within
should_escalate attempts not_after now =
    leb escalate_after_attempts attempts
    || runs_out_within (escalate_within_hours * hour) not_after now
