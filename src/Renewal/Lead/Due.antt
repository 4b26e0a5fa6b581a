-- ===== src/Renewal/Lead/Due.antt =====
-- core/store/inmemory.go, GetCertificatesDueForRenewal: what the list holds, and its order.
use certpilot.Prelude.{
  ℕ, ◌≡◌, ◌↔◌, inl, inr, Bool-cases, true, false, List, [], ◌∷◌, Time, arith, ltb_ℤ, All, All-map,
}
use certpilot.Renewal.Certificate.{Certificate}
use certpilot.Renewal.Lead.{is_due, insert_by_days, certificates_due}

-- No more days are left to `c` than to `d`.
abbrev pub Sooner : Certificate → Certificate → Type 0
Sooner c d = ltb_ℤ d.days_remaining c.days_remaining ≡ false

abbrev pub IsSorted : List Certificate → Type 0
IsSorted [] = Unit {0}
IsSorted (c ∷ cs) = All (Sooner c) cs × IsSorted cs

module _ {ℓ} (P : Certificate → Type ℓ) where
  All-insert_by_days :
      (c : Certificate) (ds : List Certificate) → P c → All P ds → All P (insert_by_days c ds)
  unfolding insert_by_days
  All-insert_by_days c [] p ps = (p, tt)
  All-insert_by_days c (d ∷ ds) p ps = elim (Bool-cases (ltb_ℤ d.days_remaining c.days_remaining)) [
    | inl e ↦ rw (e, insert_by_days) (ps.0, All-insert_by_days c ds p ps.1)
    | inr e ↦ rw (e, insert_by_days) (p, ps)
  ]

  inserted :
      (c : Certificate) (ds : List Certificate) → All P (insert_by_days c ds) → P c × All P ds
  unfolding insert_by_days
  inserted c [] h = h
  inserted c (d ∷ ds) h = elim (Bool-cases (ltb_ℤ d.days_remaining c.days_remaining)) [
    | inl e ↦
        let at = rw (e, insert_by_days) at h in let (p, ps) = inserted c ds at.1 in (p, (at.0, ps))
    | inr e ↦ rw (e, insert_by_days) at h
  ]

  due-All :
      (now : Time) (lead_days : ℕ) (certs : List Certificate)
      → All P (certificates_due now lead_days certs)
      → All (λ c. is_due now lead_days c ≡ true → P c) certs
  unfolding certificates_due
  due-All now lead_days [] h = tt
  due-All now lead_days (c ∷ cs) h = elim (Bool-cases (is_due now lead_days c)) [
    | inl e ↦
        let (p, ps) =
          inserted c (certificates_due now lead_days cs) (rw (e, certificates_due) at h) in
        ((λ due. p), due-All now lead_days cs ps)
    | inr e ↦ ((λ due. cc), due-All now lead_days cs (rw (e, certificates_due) at h))
  ]

  All-due :
      (now : Time) (lead_days : ℕ) (certs : List Certificate)
      → All (λ c. is_due now lead_days c ≡ true → P c) certs
      → All P (certificates_due now lead_days certs)
  unfolding certificates_due
  All-due now lead_days [] h = tt
  All-due now lead_days (c ∷ cs) h = elim (Bool-cases (is_due now lead_days c)) [
    | inl e ↦
        rw (e, certificates_due)
          (All-insert_by_days c (certificates_due now lead_days cs) (h.0 e)
            (All-due now lead_days cs h.1))
    | inr e ↦ rw (e, certificates_due) (All-due now lead_days cs h.1)
  ]

  -- A predicate holds of the whole list exactly if it holds of every certificate of the store that is due.
  pub All-certificates_due :
      (now : Time) (lead_days : ℕ) (certs : List Certificate)
      → All P (certificates_due now lead_days certs)
        ↔ All (λ c. is_due now lead_days c ≡ true → P c) certs
  All-certificates_due now lead_days certs =
      (due-All now lead_days certs, All-due now lead_days certs)

Sooner-trans : (a b c : Certificate) → Sooner a b → Sooner b c → Sooner a c
Sooner-trans a b c h k = ground arith

insert_by_days-IsSorted :
    (c : Certificate) (ds : List Certificate) → IsSorted ds → IsSorted (insert_by_days c ds)
unfolding insert_by_days
insert_by_days-IsSorted c [] h = (tt, tt)
insert_by_days-IsSorted c (d ∷ ds) h = elim (Bool-cases (ltb_ℤ d.days_remaining c.days_remaining)) [
  | inl e ↦
      rw (e, insert_by_days)
        (All-insert_by_days (Sooner d) c ds (ground arith) h.0, insert_by_days-IsSorted c ds h.1)
  | inr e ↦
      rw (e, insert_by_days)
        ((e, All-map (Sooner d) (Sooner c) ds (λ x k. Sooner-trans c d x e k) h.0), h)
]

-- The list that the sweep works through is in the order of the days that are left.
pub certificates_due-IsSorted :
    (now : Time) (lead_days : ℕ) (certs : List Certificate)
    → IsSorted (certificates_due now lead_days certs)
unfolding certificates_due
certificates_due-IsSorted now lead_days [] = tt
certificates_due-IsSorted now lead_days (c ∷ cs) = elim (Bool-cases (is_due now lead_days c)) [
  | inl e ↦
      rw (e, certificates_due)
        (insert_by_days-IsSorted c (certificates_due now lead_days cs)
          (certificates_due-IsSorted now lead_days cs))
  | inr e ↦ rw (e, certificates_due) (certificates_due-IsSorted now lead_days cs)
]
