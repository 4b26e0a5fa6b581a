-- ===== src/Renewal/Lead.antt =====
-- core/store/renewal_lead.go, and the choice of the certificates that are due in core/store/inmemory.go.
pub mod Bounds
pub mod Due
pub mod Chosen
mod Examples
use certpilot.Renewal.Certificate.{Certificate, KeyCustody, CertificateStatus}
use certpilot.Prelude.{
  ℕ, suc, ◌+◌, ◌-◌, ◌*◌, ◌/◌, ◌≤◌, Bool, true, false, ◌&&◌, ◌||◌, not, Option, none, some, List, [],
  ◌∷◌, Time, Duration, hour, before, after, is_zero_time, ltb, leb, ◌==◌, if◌then◌else◌, ℤ, pos,
  negsuc, pos_part, neg_part, ltb_ℤ, max_int64, mul_int64,
}

abbrev pub day : Duration
day = 24 * hour

-- `a.Sub(b)` where `b` is before `a`: a Duration saturates at its largest value.
pub lifetime : Time → Time → Duration
lifetime not_before not_after =
    if ltb max_int64 (not_after - not_before) then max_int64 else not_after - not_before

-- time.Duration(leadDays) * 24 * time.Hour, an int64 that wraps around.
pub lead_time : ℕ → ℤ
lead_time lead_days = mul_int64 (mul_int64 (pos lead_days) 24) hour

unfoldable pub renewal_lead : Time → Time → ℕ → ℤ
renewal_lead not_before not_after lead_days =
    let lead = lead_time lead_days in
    if is_zero_time not_before || not (after not_after not_before)
    then lead
    else let life = lifetime not_before not_after in
      if ltb_ℤ (mul_int64 (pos life) 2) (mul_int64 lead 3) then pos (life / 3) else lead

abbrev pub renewal_safety_floor_days : ℕ
renewal_safety_floor_days = 7

abbrev pub held_elsewhere : KeyCustody → Bool
held_elsewhere KeyCustody.agent = true
held_elsewhere KeyCustody.external = true
held_elsewhere _ = false

pub or_zero_time : Option Time → Time
or_zero_time none = 0
or_zero_time (some t) = t

-- `!notAfter.After(now.Add(lead))`.
pub expires_by : Time → Time → ℤ → Bool
expires_by not_after now lead = leb (not_after + neg_part lead) (now + pos_part lead)

pub inside_by : Time → Option Time → Option Time → ℤ → ℕ → Bool
unfolding or_zero_time expires_by
inside_by now not_before none days_remaining days = not (ltb_ℤ (pos days) days_remaining)
inside_by now not_before (some not_after) days_remaining days =
    expires_by not_after now (renewal_lead (or_zero_time not_before) not_after days)

pub inside : Time → Certificate → ℕ → Bool
unfolding inside_by
inside now c days = inside_by now c.not_before c.not_after c.days_remaining days

pub has_date : Option Time → Bool
has_date none = false
has_date (some t) = true

abbrev pub urgent_status : CertificateStatus → Bool
urgent_status CertificateStatus.expiring = true
urgent_status CertificateStatus.renewal_failed = true
urgent_status _ = false

-- The lead that the row sets, or else the one that is configured.
abbrev pub effective_lead : ℕ → Certificate → ℕ
effective_lead lead_days c = if ltb 0 c.renewal_lead_days then c.renewal_lead_days else lead_days

-- With advice from the CA, the advice and the safety floor decide; without, the lead and the status.
pub due_by : Option Time → Time → ℕ → Certificate → Bool
unfolding inside has_date
due_by (some advised) now lead_days c =
    not (after advised now) || has_date c.not_after && inside now c renewal_safety_floor_days
due_by none now lead_days c = inside now c (effective_lead lead_days c) || urgent_status c.status

-- Whether the sweep picks the certificate.
pub is_due : Time → ℕ → Certificate → Bool
unfolding due_by
is_due now lead_days c =
    c.auto_renew
    && not (held_elsewhere c.key_custody)
    && due_by c.renewal_scheduled_at now lead_days c

-- The row is kept where it stands in the order of the days that are left.
pub insert_by_days : Certificate → List Certificate → List Certificate
insert_by_days c [] = c ∷ []
insert_by_days c (d ∷ ds) =
    if ltb_ℤ d.days_remaining c.days_remaining then d ∷ insert_by_days c ds else c ∷ d ∷ ds

-- The certificates that the sweep queues, most urgent first: the loop over the map with its `continue`s,
-- and the sort.
pub certificates_due : Time → ℕ → List Certificate → List Certificate
unfolding is_due insert_by_days
certificates_due now lead_days [] = []
certificates_due now lead_days (c ∷ cs) =
    let rest = certificates_due now lead_days cs in
    if is_due now lead_days c then insert_by_days c rest else rest
