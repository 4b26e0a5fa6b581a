-- ===== src/Renewal/Pacing/Exact.antt =====
-- Conversions that meet what is relied on: the product rounded towards zero, and a conversion out of
-- range that saturates.
use certpilot.Prelude.{
  ℕ, ◌+◌, ◌-◌, ◌*◌, ◌/◌, ◌≤◌, arith, leb, if◌then◌else◌, pos, pos_part, neg_part, sub_ℕ, max_int64,
}
use certpilot.Renewal.Pacing.{Floats, FloatLaws}

abbrev pub exact : Floats
exact = record {
  to_duration = λ n. if leb n max_int64 then pos n else pos max_int64;
  perturb = λ d u. sub_ℕ (d * pos_part u / 327680) (d * neg_part u / 327680);
}

quotient_bound : (a b : ℕ) → 327680 * (a / 327680 - b / 327680) ≤ a + 327680
quotient_bound a b = omega arith

pub exact-FloatLaws : FloatLaws exact
exact-FloatLaws = record {
  in_range = λ n h. ground arith;
  out_of_range = λ n h. ground arith;
  perturb_up = λ d u _ _. ground (arith, quotient_bound (d * pos_part u) (d * neg_part u));
  perturb_down = λ d u _ _. ground (arith, quotient_bound (d * neg_part u) (d * pos_part u));
}
