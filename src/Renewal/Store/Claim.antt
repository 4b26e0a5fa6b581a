-- ===== src/Renewal/Store/Claim.antt =====
-- ClaimRenewalJob: which row a claim takes, and what it does to it.
use mathlib.Core.List.{append_assoc, append-nil}
use certpilot.Prelude.{
  ℕ, suc, ◌≡◌, refl, subst, inl, inr, true, false, Option, none, some, List, [], ◌∷◌, ◌++◌, Text,
  Time, Duration, arith, Bool-cases, length, get_elem?, set, All, All-append, All-map,
  get_elem?-append, get_elem?-length, length-append,
}
use certpilot.Renewal.Job.{RenewalJob}
use certpilot.Renewal.Store.{is_ready, more_urgent, better, pick_from, leased, claim_renewal_job}

more_urgent_irrefl : (a : RenewalJob) → more_urgent a a ≡ false
unfolding more_urgent
more_urgent_irrefl a = ground arith

more_urgent_trans :
    (a b c : RenewalJob) → more_urgent a b ≡ true → more_urgent b c ≡ true → more_urgent a c ≡ true
unfolding more_urgent
more_urgent_trans a b c p q = ground arith

-- `j` may be passed over for `b`: it is not ready, or it is no more urgent.
abbrev pub YieldsTo : Time → RenewalJob → RenewalJob → Type 0
YieldsTo now b j = is_ready now j ≡ true → more_urgent j b ≡ false

-- The choice among the rows: none if none is ready, and else a ready row that all ready rows yield to.
abbrev pub BestOf : Time → List RenewalJob → Option (ℕ × RenewalJob) → Type 0
BestOf now jobs none = All (λ j. is_ready now j ≡ false) jobs
BestOf now jobs (some (i, b)) =
    (get_elem? jobs i ≡ some b) × (is_ready now b ≡ true) × All (YieldsTo now b) jobs

yields_on :
    (now : Time) (b c j : RenewalJob) → more_urgent c b ≡ true → YieldsTo now b j → YieldsTo now c j
yields_on now b c j closer h ready = elim (Bool-cases (more_urgent j c)) [
  | inl e ↦ cc (more_urgent_trans j c b e closer, h ready)
  | inr e ↦ e
]

better-BestOf :
    (now : Time) (seen : List RenewalJob) (j : RenewalJob) (best : Option (ℕ × RenewalJob))
    → BestOf now seen best
    → BestOf now (seen ++ j ∷ []) (better now (length seen) j best)
unfolding better
better-BestOf now seen j none h = elim (Bool-cases (is_ready now j)) [
  | inl e ↦ rw e (
    get_elem?-length seen [] j,
    e,
    All-append _ seen _ (All-map _ _ seen (λ a u r. cc) h) (λ r. more_urgent_irrefl j, tt),
  )
  | inr e ↦ rw e (All-append _ seen _ h (e, tt))
]
better-BestOf now seen j (some (k, b)) (found, ready, rest) = elim (Bool-cases (is_ready now j)) [
  | inl e ↦ elim (Bool-cases (more_urgent j b)) [
    | inl u ↦
        rw (e, u)
          (
            get_elem?-length seen [] j,
            e,
            All-append _ seen _ (All-map _ _ seen (λ a y. yields_on now b j a u y) rest)
                (λ r. more_urgent_irrefl j, tt),
          )
    | inr u ↦
        rw (e, u) (get_elem?-append seen _ k b found, ready, All-append _ seen _ rest (λ r. u, tt))
  ]
  | inr e ↦ rw e (get_elem?-append seen _ k b found, ready, All-append _ seen _ rest (λ r. cc, tt))
]

pick_from-BestOf :
    (now : Time) (n : ℕ) (seen rest : List RenewalJob) (best : Option (ℕ × RenewalJob))
    → length seen ≡ n
    → BestOf now seen best
    → BestOf now (seen ++ rest) (pick_from now n best rest)
unfolding pick_from
pick_from-BestOf now n seen [] best e h = rw append-nil h
pick_from-BestOf now n seen (j ∷ js) best e h =
    subst (λ l. BestOf now l (pick_from now (suc n) (better now n j best) js))
      (append_assoc seen (j ∷ []) js)
      (pick_from-BestOf now (suc n) (seen ++ j ∷ []) js (better now n j best)
        (omega (arith, length-append seen (j ∷ []), e))
        (subst (λ m. BestOf now (seen ++ j ∷ []) (better now m j best)) e
          (better-BestOf now seen j best h)))

-- What a claim may do: leave the rows alone when none is ready, or lease a best row to the worker.
pub data Claimed (worker : Text) (lease : Duration) (now clock : Time) (jobs : List RenewalJob)
    : List RenewalJob × Option RenewalJob → Type 0 where
  idle : BestOf now jobs none → Claimed worker lease now clock jobs (jobs, none)
  takes :
      (i : ℕ) (j : RenewalJob)
      → BestOf now jobs (some (i, j))
      → Claimed worker lease now clock jobs
          (set jobs i (leased worker lease now clock j), some (leased worker lease now clock j))

-- A claim takes a ready row to which every other ready row yields, and leases it; it takes none only
-- if no row is ready.
pub claim_renewal_job-Claimed :
    (worker : Text) (lease : Duration) (now clock : Time) (jobs : List RenewalJob)
    → Claimed worker lease now clock jobs (claim_renewal_job worker lease now clock jobs)
unfolding claim_renewal_job
claim_renewal_job-Claimed worker lease now clock jobs =
    go (pick_from now 0 none jobs) (pick_from-BestOf now 0 [] jobs none refl tt)
  where
    go :
        (o : Option (ℕ × RenewalJob))
        → BestOf now jobs o
        → Claimed worker lease now clock jobs (elim o [
          | none ↦ (jobs, none)
          | some (i, j) ↦ let best = leased worker lease now clock j in (set jobs i best, some best)
        ])
    go none h = idle h
    go (some (i, j)) h = takes i j h
