-- ===== src/Renewal/Worker/Quota.antt =====
-- core/engine/renewal/queue.go, rateLimited: the time that a deferral names.
use certpilot.Prelude.{
  ℕ, ◌+◌, ◌-◌, ◌≤◌, ◌<◌, ◌≡◌, refl, subst, ap, inl, inr, Bool-cases, Option, none, some,
  some_injective, Text, Time, minute, ltb_ℤ, pos, pos_part, not, arith,
}
use certpilot.Renewal.Store.{count_recent_renewals}
use certpilot.Renewal.Store.Recent.{Recent, count_recent_renewals-Recent}
use certpilot.Renewal.Worker.{Account, Run, World, rate_window, slot_opens, limited_by}

-- How many renewals of the account lie in the window that ends then.
abbrev pub in_window_at : Account → World → Time → ℕ
in_window_at a w t = (count_recent_renewals a.id (t - rate_window a) w.jobs).0

slot_opens-Recent :
    (a : Account) (w : World) (now : Time) (oldest : Option Time)
    → Recent a.id (now - rate_window a) w.jobs (in_window_at a w now) oldest
    → 1 ≤ in_window_at a w now
    → (now + minute ≤ slot_opens now (rate_window a) oldest)
      × (in_window_at a w (slot_opens now (rate_window a) oldest) < in_window_at a w now)
unfolding slot_opens
slot_opens-Recent a w now none recent some_counted =
    absurd (omega (arith, recent.none_counted refl))
slot_opens-Recent a w now (some t) recent some_counted = (
  omega (arith, recent.in_it t refl),
  recent.ages t (t + rate_window a + minute - rate_window a) refl (omega arith)
      (omega (arith, recent.in_it t refl)),
)

-- A renewal that the quota of its account holds back is put off by a minute at least, to a time at which fewer of the renewals that are counted now lie in the window; the account has a limit above zero, and the count has reached it.
pub limited_by-slot_opens :
    (r : Run) (w : World) (now : Time) (a : Account) {until : Time} {reason : Text}
    → limited_by r w now a ≡ some (until, reason)
    → (now + minute ≤ until)
      × (in_window_at a w until < in_window_at a w now)
      × (1 ≤ pos_part a.renewal_rate_limit)
      × (pos_part a.renewal_rate_limit ≤ in_window_at a w now)
unfolding limited_by
limited_by-slot_opens r w now a {until} {reason} h =
    let since = now - rate_window a in
    let counted = count_recent_renewals a.id since w.jobs in
    elim (Bool-cases (not (ltb_ℤ (pos 0) a.renewal_rate_limit))) [
      | inl e ↦ absurd (cc (rw (e, limited_by) at h))
      | inr e ↦ elim (Bool-cases (ltb_ℤ (pos counted.0) a.renewal_rate_limit)) [
        | inl f ↦ absurd (cc (rw (e, f, limited_by) at h))
        | inr f ↦
            let enough : pos_part a.renewal_rate_limit ≤ in_window_at a w now = ground arith in
            let some_limit : 1 ≤ pos_part a.renewal_rate_limit = ground arith in
            let opens =
              slot_opens-Recent a w now counted.1 (count_recent_renewals-Recent a.id since w.jobs)
                (omega arith) in
            let named = ap (λ p. p.0) (some_injective (rw (e, f, limited_by) at h)) in
            (
              subst (λ u. now + minute ≤ u) named opens.0,
              subst (λ u. in_window_at a w u < in_window_at a w now) named opens.1,
              some_limit,
              enough,
            )
      ]
    ]
