-- ===== src/Renewal/Pacing/Examples.antt =====
-- The bounds on the next attempt at numbers.
use certpilot.Prelude.{◌+◌, ◌*◌, ◌≤◌, ◌<◌, ◌≡◌, refl, none, some, hour, minute, arith}
use certpilot.Renewal.Pacing.{
  max_retry_delay, min_retry_delay, backoff, retry_at, within_runway, jittered,
}
use certpilot.Renewal.Pacing.Deadline.{retry_at_bounds, retry_at-lt-expiry}
use certpilot.Renewal.Pacing.Exact.{exact, exact-FloatLaws}

-- The fourth failure waits for sixteen minutes, with no jitter in the draw.
fourth_failure : retry_at exact none 4 none 0 ≡ 16 * minute
unfolding retry_at backoff within_runway jittered
fourth_failure = refl

-- With a day of life left it is an hour at most, at most a fifth more.
tenth_failure : retry_at exact (some (255, 255)) 10 (some (24 * hour)) 0 ≡ 4319978027343
unfolding retry_at backoff within_runway jittered
tenth_failure = refl

retry_at_bounds_example :
    (5 + min_retry_delay ≤ retry_at exact (some (3, 4)) 7 none 5)
    × (5 * retry_at exact (some (3, 4)) 7 none 5 ≤ 5 * 5 + 6 * max_retry_delay + 5)
retry_at_bounds_example =
    retry_at_bounds exact exact-FloatLaws (some (3, 4)) (omega arith, omega arith) 7 none 5

retry_at-lt-expiry_example : retry_at exact none 9 (some (2 * minute)) 0 < 2 * minute
retry_at-lt-expiry_example =
    retry_at-lt-expiry exact exact-FloatLaws none tt 9 (2 * minute) 0 (omega arith)
