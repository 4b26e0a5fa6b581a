-- ===== src/Renewal/Lead/Bounds.antt =====
-- When a certificate becomes due, in terms of its own lifetime.
use certpilot.Prelude.{
  ℕ, ◌+◌, ◌-◌, ◌*◌, ◌/◌, ◌≤◌, ◌<◌, ◌≡◌, sym, ap, subst, ◌∙◌, true, false, none, some, Time, hour,
  arith, ltb, if◌then◌else◌, pos, max_int64, mul_int64, mul_int64-small,
}
use certpilot.Renewal.Certificate.{Certificate}
use certpilot.Renewal.Lead.{
  day, lead_time, effective_lead, lifetime, renewal_lead, is_due, held_elsewhere,
  renewal_safety_floor_days,
}

lead_time-eq : (n : ℕ) → n * day ≤ max_int64 → lead_time n ≡ pos (n * day)
unfolding lead_time
lead_time-eq n h =
    subst (λ z. mul_int64 z hour ≡ pos (n * day)) (sym (mul_int64-small n 24 (omega arith)))
      (mul_int64-small (n * 24) hour (omega arith) ∙ ap pos (omega arith))

-- A certificate's dates and the configured days at which no product leaves the range of an int64: up
-- to 35583 days of lead and 146 years of life.
pub record InRange (not_before not_after : Time) (lead_days : ℕ) : Type 0 where
  pub recorded : 0 < not_before
  pub ordered : not_before < not_after
  pub short_life : 2 * (not_after - not_before) ≤ max_int64
  pub short_lead : 3 * (lead_days * day) ≤ max_int64

lifetime-eq :
    (not_before not_after : Time)
    → not_after - not_before ≤ max_int64
    → lifetime not_before not_after ≡ not_after - not_before
unfolding lifetime
lifetime-eq not_before not_after h = ground arith

-- The lead is the configured one, unless that exceeds two thirds of the life; then it is a third.
pub renewal_lead-eq :
    (not_before not_after : Time) (lead_days : ℕ)
    → InRange not_before not_after lead_days
    → renewal_lead not_before not_after lead_days
      ≡ pos (
          if ltb (2 * (not_after - not_before)) (3 * (lead_days * day))
          then (not_after - not_before) / 3
          else lead_days * day)
unfolding renewal_lead
renewal_lead-eq not_before not_after lead_days r =
    let life = not_after - not_before in
    ground (
      arith,
      r,
      lead_time-eq lead_days (omega (arith, r.short_lead)),
      lifetime-eq not_before not_after (omega (arith, r.short_life)),
      mul_int64-small life 2 (omega (arith, r.short_life)),
      mul_int64-small (lead_days * day) 3 (omega (arith, r.short_lead)),
    )

-- What every use of the lead needs of it: at most the configured lead, at most two thirds of the life,
-- and exactly the configured lead if that is within two thirds.
pub record Lead (life configured lead : ℕ) : Type 0 where
  pub at_most : lead ≤ configured
  pub bounded : 3 * lead ≤ 2 * life
  pub kept : 3 * configured ≤ 2 * life → lead ≡ configured

-- A certificate that CertPilot may renew, with no advice from its CA, is due once the configured lead
-- has begun, if that lead is within two thirds of the life.
pub due_at_lead :
    (now : Time) (lead_days : ℕ) (c : Certificate) (not_before not_after : Time)
    → c.not_before ≡ some not_before
    → c.not_after ≡ some not_after
    → c.renewal_scheduled_at ≡ none
    → c.auto_renew ≡ true
    → held_elsewhere c.key_custody ≡ false
    → InRange not_before not_after (effective_lead lead_days c)
    → 3 * (effective_lead lead_days c * day) ≤ 2 * (not_after - not_before)
    → not_after ≤ now + effective_lead lead_days c * day
    → is_due now lead_days c ≡ true
unfolding is_due
due_at_lead now lead_days c not_before not_after b a advice auto mine r within reached =
    ground (arith, renewal_lead-eq not_before not_after (effective_lead lead_days c) r)

-- However late the CA advises to renew, a certificate that CertPilot may renew is due in the last seven
-- days of its life, or in the last third of it if that is shorter.
pub due_at_floor :
    (now : Time) (lead_days : ℕ) (c : Certificate) (not_before not_after advised : Time)
    → c.not_before ≡ some not_before
    → c.not_after ≡ some not_after
    → c.renewal_scheduled_at ≡ some advised
    → c.auto_renew ≡ true
    → held_elsewhere c.key_custody ≡ false
    → InRange not_before not_after renewal_safety_floor_days
    → not_after ≤ now + renewal_safety_floor_days * day
    → not_after ≤ now + (not_after - not_before) / 3
    → is_due now lead_days c ≡ true
unfolding is_due
due_at_floor now lead_days c not_before not_after advised b a advice auto mine r week third =
    ground (arith, renewal_lead-eq not_before not_after renewal_safety_floor_days r)

-- A certificate whose key is on a host or with whoever sent its signing request is never due.
pub held_elsewhere-not_due :
    (now : Time) (lead_days : ℕ) (c : Certificate)
    → held_elsewhere c.key_custody ≡ true
    → is_due now lead_days c ≡ false
unfolding is_due
held_elsewhere-not_due now lead_days c h = ground arith
