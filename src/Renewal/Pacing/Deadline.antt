-- ===== src/Renewal/Pacing/Deadline.antt =====
-- The bounds on the next attempt of a failed renewal.
use native.Mathlib.Nat.{pow-suc, mul-le-mul_left}
use certpilot.Prelude.{
  ℕ, zero, suc, min, ◌+◌, ◌-◌, ◌*◌, ◌^◌, ◌≤◌, ◌<◌, ◌≡◌, ◌⊎◌, inl, inr, Option, none, some, Time,
  Duration, leb, pos_part, neg_part, arith, Bool-cases, max_int64,
}
use certpilot.Renewal.Pacing.{
  Floats, FloatLaws, base_retry_delay, max_retry_delay, min_retry_delay, rand_unit, backoff,
  within_runway, jittered, retry_at, capped,
}

pow-pos : (n : ℕ) → 1 ≤ 2 ^ n
pow-pos zero = omega arith
pow-pos (suc n) = omega (arith, pow-pos n, pow-suc 2 n)

capped_lem :
    (f : Floats) (laws : FloatLaws f) (n : ℕ)
    → 1 ≤ n
    → capped (f.to_duration n) ≡ min n max_retry_delay
unfolding capped
capped_lem f laws n h = elim (Bool-cases (leb n max_int64)) [
  | inl small ↦ rw (laws.in_range n (ground arith)) (ground arith)
  | inr large ↦ elim (laws.out_of_range n (ground arith)) [
    | inl e ↦ rw e (ground arith)
    | inr e ↦ rw e (ground arith)
  ]
]

-- The exponential curve, with the overflow of the conversion caught by its cap.
pub backoff-eq-min :
    (f : Floats) (laws : FloatLaws f) (attempts : ℕ)
    → backoff f attempts ≡ min (base_retry_delay * 2 ^ (attempts - 1)) max_retry_delay
unfolding backoff
backoff-eq-min f laws attempts =
    capped_lem f laws (base_retry_delay * 2 ^ (attempts - 1))
      (omega (arith, pow-pos (attempts - 1)))

-- A draw of two bytes, or none.
abbrev pub IsDraw : Option (ℕ × ℕ) → Type 0
IsDraw none = Unit {0}
IsDraw (some (high, low)) = (high < 256) × (low < 256)

rand_unit_bounded :
    (bytes : Option (ℕ × ℕ))
    → IsDraw bytes
    → pos_part (rand_unit bytes) + neg_part (rand_unit bytes) ≤ 65536
unfolding rand_unit
rand_unit_bounded none h = omega arith
rand_unit_bounded (some (high, low)) h = ground arith

fifth : (d p u : ℕ) → 327680 * p ≤ d * u + 327680 → u ≤ 65536 → 5 * p ≤ d + 5
fifth d p u h b = omega (arith, mul-le-mul_left {m = u} {n = 65536} d b)

-- The runway shortens the delay, and replaces it by the floor once it has run out.
within_runway_bounds :
    (not_after : Option Time) (now : Time) (delay : Duration)
    → (within_runway not_after now delay ≤ delay)
      ⊎ (within_runway not_after now delay ≡ min_retry_delay)
unfolding within_runway
within_runway_bounds not_after now delay = ground arith

within_runway_open :
    (not_after now : Time) (delay : Duration)
    → now < not_after
    → 24 * within_runway (some not_after) now delay ≤ not_after - now
unfolding within_runway
within_runway_open not_after now delay h = ground arith

within_runway_over :
    (not_after now : Time) (delay : Duration)
    → not_after ≤ now
    → within_runway (some not_after) now delay ≡ min_retry_delay
unfolding within_runway
within_runway_over not_after now delay h = ground arith

module _ (f : Floats) (laws : FloatLaws f) (bytes : Option (ℕ × ℕ)) (draw : IsDraw bytes) where
  -- The jitter moves a delay by a fifth of it at most, and never below the floor.
  jittered_bounds :
      (d : Duration)
      → d ≤ max_retry_delay
      → (min_retry_delay ≤ jittered f bytes d)
        × ((jittered f bytes d ≡ min_retry_delay) ⊎ (5 * jittered f bytes d ≤ 6 * d + 5))
        × ((jittered f bytes d ≡ min_retry_delay) ⊎ (4 * d ≤ 5 * jittered f bytes d + 5))
  unfolding jittered
  jittered_bounds d longest =
      let u = rand_unit bytes in
      let bounded = rand_unit_bounded bytes draw in
      let up = fifth d _ _ (laws.perturb_up d u longest bounded) (omega (arith, bounded)) in
      let down = fifth d _ _ (laws.perturb_down d u longest bounded) (omega (arith, bounded)) in
      (ground arith, ground arith, ground arith)

  runway_longest :
      (attempts : ℕ) (not_after : Option Time) (now : Time)
      → within_runway not_after now (backoff f attempts) ≤ max_retry_delay
  runway_longest attempts not_after now = ground (
    arith,
    within_runway_bounds not_after now (backoff f attempts),
    backoff-eq-min f laws attempts,
  )

  -- A failed renewal is tried again a minute later at the earliest, and at the latest after the longest delay and a fifth of it, given the laws of the conversions and random bytes.
  pub retry_at_bounds :
      (attempts : ℕ) (not_after : Option Time) (now : Time)
      → (now + min_retry_delay ≤ retry_at f bytes attempts not_after now)
        × (5 * retry_at f bytes attempts not_after now ≤ 5 * now + 6 * max_retry_delay + 5)
  unfolding retry_at
  retry_at_bounds attempts not_after now =
      let delay = within_runway not_after now (backoff f attempts) in
      ground (
        arith,
        jittered_bounds delay (runway_longest attempts not_after now),
        within_runway_bounds not_after now (backoff f attempts),
        backoff-eq-min f laws attempts,
      )

  -- With more than a minute of life left the next attempt comes before the certificate expires, however many have failed, given the laws of the conversions and random bytes.
  pub retry_at-lt-expiry :
      (attempts : ℕ) (not_after now : Time)
      → now + min_retry_delay < not_after
      → retry_at f bytes attempts (some not_after) now < not_after
  unfolding retry_at
  retry_at-lt-expiry attempts not_after now h =
      let delay = within_runway (some not_after) now (backoff f attempts) in
      ground (
        arith,
        jittered_bounds delay (runway_longest attempts (some not_after) now),
        within_runway_open not_after now (backoff f attempts),
      )

  -- Once the certificate has expired the delay stays at the floor, and a fifth of it, given the laws of the conversions and random bytes.
  pub retry_at_expired :
      (attempts : ℕ) (not_after now : Time)
      → not_after ≤ now
      → 5 * retry_at f bytes attempts (some not_after) now ≤ 5 * now + 6 * min_retry_delay + 5
  unfolding retry_at
  retry_at_expired attempts not_after now h =
      let delay = within_runway (some not_after) now (backoff f attempts) in
      ground (
        arith,
        jittered_bounds delay (runway_longest attempts (some not_after) now),
        within_runway_over not_after now (backoff f attempts) h,
      )
