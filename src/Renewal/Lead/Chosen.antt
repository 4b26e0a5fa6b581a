-- ===== src/Renewal/Lead/Chosen.antt =====
-- core/store/inmemory.go, GetCertificatesDueForRenewal: which certificates the list holds.
use mathlib.Core.List.{Perm}
use mathlib.Core.List.Perm
use certpilot.Prelude.{
  Chosen, none_left, takes, leaves, ℕ, ◌+◌, ◌≤◌, ◌≡◌, ◌≢◌, ◌↔◌, ◌⊎◌, refl, subst, after, inl, inr,
  Bool-cases, true, false, Option, none, some, List, [], ◌∷◌, Time, arith, ltb_ℤ, ℤ, pos_part,
  neg_part,
}
use certpilot.Renewal.Certificate.{Certificate, KeyCustody, CertificateStatus}
use certpilot.Renewal.Lead.{
  renewal_lead, renewal_safety_floor_days, held_elsewhere, or_zero_time, expires_by, inside_by,
  inside, has_date, urgent_status, effective_lead, due_by, is_due, insert_by_days, certificates_due,
}

-- Within the lead of its last day, or, where no last day is recorded, no more days left than that many.
abbrev pub EndsWithin : Time → Option Time → Option Time → ℤ → ℕ → Type 0
EndsWithin now begins none left days = pos_part left ≤ days + neg_part left
EndsWithin now none (some ends) left days =
    ends + neg_part (renewal_lead 0 ends days) ≤ now + pos_part (renewal_lead 0 ends days)
EndsWithin now (some begins) (some ends) left days =
    ends + neg_part (renewal_lead begins ends days) ≤ now + pos_part (renewal_lead begins ends days)

-- The lead in days: the row's own one if it has one above zero, or else the configured one.
abbrev pub IsLead : ℕ → Certificate → ℕ → Type 0
IsLead lead_days c days =
    ((1 ≤ c.renewal_lead_days) × (days ≡ c.renewal_lead_days))
    ⊎ ((c.renewal_lead_days ≡ 0) × (days ≡ lead_days))

-- With advice: it has come, or the certificate ends on a known day within the safety floor of seven days.
-- Without: it ends within its lead, or it is marked as expiring or as failed.
abbrev pub IsTime : Option Time → Time → ℕ → Certificate → Type 0
IsTime (some advised) now lead_days c =
    (advised ≤ now)
    ⊎ ((c.not_after ≢ none)
        × EndsWithin now c.not_before c.not_after c.days_remaining renewal_safety_floor_days)
IsTime none now lead_days c =
    ((days : ℕ) × IsLead lead_days c days
      × EndsWithin now c.not_before c.not_after c.days_remaining days)
    ⊎ ((c.status ≡ CertificateStatus.expiring) ⊎ (c.status ≡ CertificateStatus.renewal_failed))

-- A certificate that the sweep is to renew.
pub record Due (now : Time) (lead_days : ℕ) (c : Certificate) : Type 0 where
  pub automatic : c.auto_renew ≡ true
  pub not_agent : c.key_custody ≢ KeyCustody.agent
  pub not_external : c.key_custody ≢ KeyCustody.external
  pub time : IsTime c.renewal_scheduled_at now lead_days c

inside_by_iff :
    (now : Time) (begins ends : Option Time) (left : ℤ) (days : ℕ)
    → (inside_by now begins ends left days ≡ true) ↔ EndsWithin now begins ends left days
unfolding inside_by or_zero_time expires_by
inside_by_iff now begins none left days = ((λ h. ground arith), λ h. ground arith)
inside_by_iff now none (some ends) left days = ((λ h. ground arith), λ h. ground arith)
inside_by_iff now (some begins) (some ends) left days = ((λ h. ground arith), λ h. ground arith)

held_elsewhere_iff :
    (k : KeyCustody)
    → (held_elsewhere k ≡ false) ↔ ((k ≢ KeyCustody.agent) × (k ≢ KeyCustody.external))
held_elsewhere_iff KeyCustody.unset = ((λ h. ((λ e. cc), λ e. cc)), λ h. refl)
held_elsewhere_iff KeyCustody.cert_pilot = ((λ h. ((λ e. cc), λ e. cc)), λ h. refl)
held_elsewhere_iff KeyCustody.agent = ((λ h. absurd (cc)), λ h. absurd (h.0 refl))
held_elsewhere_iff KeyCustody.external = ((λ h. absurd (cc)), λ h. absurd (h.1 refl))

urgent_status_iff :
    (s : CertificateStatus)
    → (urgent_status s ≡ true)
      ↔ ((s ≡ CertificateStatus.expiring) ⊎ (s ≡ CertificateStatus.renewal_failed))
urgent_status_iff CertificateStatus.pending = ((λ h. cc), λ h. elim h [ inl e ↦ cc | inr e ↦ cc ])
urgent_status_iff CertificateStatus.issued = ((λ h. cc), λ h. elim h [ inl e ↦ cc | inr e ↦ cc ])
urgent_status_iff CertificateStatus.expiring = ((λ h. inl refl), λ h. refl)
urgent_status_iff CertificateStatus.expired = ((λ h. cc), λ h. elim h [ inl e ↦ cc | inr e ↦ cc ])
urgent_status_iff CertificateStatus.revoked = ((λ h. cc), λ h. elim h [ inl e ↦ cc | inr e ↦ cc ])
urgent_status_iff CertificateStatus.renewal_failed = ((λ h. inr refl), λ h. refl)

has_date_iff : (t : Option Time) → (has_date t ≡ true) ↔ (t ≢ none)
unfolding has_date
has_date_iff none = ((λ h. absurd (cc)), λ h. absurd (h refl))
has_date_iff (some t) = ((λ h e. cc), λ h. refl)

effective_lead-IsLead :
    (lead_days : ℕ) (c : Certificate) → IsLead lead_days c (effective_lead lead_days c)
effective_lead-IsLead lead_days c = ground arith

IsLead-effective_lead :
    (lead_days : ℕ) (c : Certificate) (days : ℕ)
    → IsLead lead_days c days
    → days ≡ effective_lead lead_days c
IsLead-effective_lead lead_days c days h = ground arith

inside_iff :
    (now : Time) (c : Certificate) (days : ℕ)
    → (inside now c days ≡ true) ↔ EndsWithin now c.not_before c.not_after c.days_remaining days
unfolding inside
inside_iff now c days = inside_by_iff now c.not_before c.not_after c.days_remaining days

due_by_iff :
    (advice : Option Time) (now : Time) (lead_days : ℕ) (c : Certificate)
    → (due_by advice now lead_days c ≡ true) ↔ IsTime advice now lead_days c
unfolding due_by
due_by_iff (some advised) now lead_days c =
    let floor = inside_iff now c renewal_safety_floor_days in
    let dated = has_date_iff c.not_after in
    (
      λ h. elim (Bool-cases (after advised now)) [
        | inl late ↦ inr (dated.0 (ground arith), floor.0 (ground arith))
        | inr come ↦ inl (ground arith)
      ],
      λ h. elim h [
        | inl come ↦ ground arith
        | inr (known, ends) ↦ let known' = dated.1 known in let ends' = floor.1 ends in ground arith
      ],
    )
due_by_iff none now lead_days c =
    let lead = inside_iff now c (effective_lead lead_days c) in
    let marked = urgent_status_iff c.status in
    (
      λ h. elim (Bool-cases (inside now c (effective_lead lead_days c))) [
        | inl e ↦ inl (effective_lead lead_days c, effective_lead-IsLead lead_days c, lead.0 e)
        | inr e ↦ inr (marked.0 (ground arith))
      ],
      λ h. elim h [
        | inl (days, own, ends) ↦
            let same = IsLead-effective_lead lead_days c days own in
            let ends' =
              lead.1 (
                subst (λ n. EndsWithin now c.not_before c.not_after c.days_remaining n) same
                  ends) in
            ground arith
        | inr h' ↦ let marked' = marked.1 h' in ground arith
      ],
    )

is_due_iff :
    (now : Time) (lead_days : ℕ) (c : Certificate)
    → (is_due now lead_days c ≡ true) ↔ Due now lead_days c
unfolding is_due
is_due_iff now lead_days c =
    let custody = held_elsewhere_iff c.key_custody in
    let timely = due_by_iff c.renewal_scheduled_at now lead_days c in
    (
      λ h.
          let here = custody.0 (ground arith) in
          record {
            automatic = ground arith;
            not_agent = here.0;
            not_external = here.1;
            time = timely.0 (ground arith);
          },
      λ d.
          let here = custody.1 (d.not_agent, d.not_external) in
          let on_time = timely.1 d.time in simp (d.automatic, here, on_time),
    )

insert_by_days-perm :
    (c : Certificate) (ds : List Certificate) → Perm (insert_by_days c ds) (c ∷ ds)
unfolding insert_by_days
insert_by_days-perm c [] = Perm.refl (c ∷ [])
insert_by_days-perm c (d ∷ ds) = elim (Bool-cases (ltb_ℤ d.days_remaining c.days_remaining)) [
  | inl e ↦
      rw (e, insert_by_days)
        (Perm.trans (Perm.cons d (insert_by_days-perm c ds)) (Perm.swap c d ds))
  | inr e ↦ rw (e, insert_by_days) (Perm.refl (c ∷ d ∷ ds))
]

-- The list that the sweep works through is, up to its order, what is left of the store's certificates when those that are not due are left out: due is a certificate that renews automatically, whose key neither an agent nor another system holds, and for which either the CA's advised time has come or the safety floor of seven days has begun, or, without advice, its lead has begun or it is marked as expiring or as failed.
pub certificates_due-Chosen :
    (now : Time) (lead_days : ℕ) (certs : List Certificate)
    → (chosen : List Certificate) × Chosen (Due now lead_days) certs chosen
      × Perm (certificates_due now lead_days certs) chosen
unfolding certificates_due
certificates_due-Chosen now lead_days [] = ([], none_left, Perm.refl [])
certificates_due-Chosen now lead_days (c ∷ cs) =
    let (chosen, picks, perm) = certificates_due-Chosen now lead_days cs in
    elim (Bool-cases (is_due now lead_days c)) [
      | inl e ↦ (
        c ∷ chosen,
        takes c ((is_due_iff now lead_days c).0 e) picks,
        rw (e, certificates_due)
            (Perm.trans (insert_by_days-perm c (certificates_due now lead_days cs))
              (Perm.cons c perm)),
      )
      | inr e ↦ (
        chosen,
        leaves c (λ d. let due = (is_due_iff now lead_days c).1 d in cc) picks,
        rw (e, certificates_due) perm,
      )
    ]
