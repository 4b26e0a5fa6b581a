-- ===== src/Renewal/Store/Recent.antt =====
-- core/store/inmemory.go, CountRecentRenewals: the count and the oldest renewal of a window.
use certpilot.Prelude.{
  ℕ, zero, suc, ◌+◌, ◌≤◌, ◌<◌, ◌≡◌, ◌⊎◌, refl, ap, ◌∙◌, inl, inr, Bool-cases, true, Option, none,
  some, List, [], ◌∷◌, Text, Time, before, arith, get_elem?, if◌then◌else◌, total,
}
use certpilot.Renewal.Job.{RenewalJob}
use certpilot.Renewal.Store.{count_recent_from, count_recent_renewals, spent_by, earliest}

-- Whether the row is one of the account's renewals since then.
abbrev pub spends : Text → Time → RenewalJob → ℕ
spends account since j = if spent_by account since j j.completed_at then 1 else 0

spends-later :
    (account : Text) (since later : Time) (j : RenewalJob)
    → since ≤ later
    → spends account later j ≤ spends account since j
unfolding spent_by
spends-later account since later j h = go j.completed_at
  where
    go :
        (done : Option Time)
        → (if spent_by account later j done then 1 else 0)
          ≤ (if spent_by account since j done then 1 else 0)
    go none = omega arith
    go (some d) = ground arith

total-later :
    (account : Text) (since later : Time) (js : List RenewalJob)
    → since ≤ later
    → total (spends account later) js ≤ total (spends account since) js
total-later account since later [] h = omega arith
total-later account since later (j ∷ js) h =
    omega (arith, spends-later account since later j h, total-later account since later js h)

-- A row that has left the window.
total-left :
    (account : Text) (since later : Time) (js : List RenewalJob) (i : ℕ) (j : RenewalJob)
    → since ≤ later
    → get_elem? js i ≡ some j
    → spends account since j ≡ 1
    → spends account later j ≡ 0
    → total (spends account later) js < total (spends account since) js
total-left account since later [] i j h at inside gone = cc
total-left account since later (x ∷ js) zero j h at inside gone =
    ground (arith, total-later account since later js h)
total-left account since later (x ∷ js) (suc i) j h at inside gone = omega (
  arith,
  spends-later account since later x h,
  total-left account since later js i j h at inside gone,
)

counted-total :
    (account : Text) (since : Time) (n : ℕ) (oldest : Option Time) (js : List RenewalJob)
    → (count_recent_from account since n oldest js).0 ≡ n + total (spends account since) js
unfolding count_recent_from
counted-total account since n oldest [] = omega arith
counted-total account since n oldest (j ∷ js) =
    let counts = spent_by account since j j.completed_at in
    counted-total account since (if counts then suc n else n)
      (if counts then earliest oldest j.completed_at else oldest) js
    ∙ ground arith

-- A renewal of the window that completed then.
abbrev Completed : Text → Time → List RenewalJob → Time → Type 0
Completed account since js t =
    (i : ℕ) × (j : RenewalJob) × (get_elem? js i ≡ some j)
    × (j.completed_at ≡ some t)
    × (spends account since j ≡ 1)

earliest-some :
    (o : Option Time) (finish : Option Time) (t : Time)
    → earliest o finish ≡ some t
    → (o ≡ some t) ⊎ (finish ≡ some t)
unfolding earliest
earliest-some none finish t h = inr h
earliest-some (some a) none t h = inl h
earliest-some (some a) (some d) t h = elim (Bool-cases (before d a)) [
  | inl e ↦ inr (rw (e) at h)
  | inr e ↦ inl (rw (e) at h)
]

oldest-some :
    (account : Text) (since : Time) (n : ℕ) (oldest : Option Time) (js : List RenewalJob) (t : Time)
    → (count_recent_from account since n oldest js).1 ≡ some t
    → (oldest ≡ some t) ⊎ Completed account since js t
unfolding count_recent_from
oldest-some account since n oldest [] t h = inl h
oldest-some account since n oldest (j ∷ js) t h =
    elim (Bool-cases (spent_by account since j j.completed_at)) [
      | inr e ↦ elim (oldest-some account since n oldest js t (rw (e, count_recent_from) at h)) [
        | inl kept ↦ inl kept
        | inr (i, row, at, done, inside) ↦ inr (suc i, row, at, done, inside)
      ]
      | inl e ↦
          elim (oldest-some account since (suc n) (earliest oldest j.completed_at) js t
            (rw (e, count_recent_from) at h)) [
              | inr (i, row, at, done, inside) ↦ inr (suc i, row, at, done, inside)
              | inl from ↦ elim (earliest-some oldest j.completed_at t from) [
                | inl kept ↦ inl kept
                | inr done ↦ inr (0, j, refl, done, rw (e) refl)
              ]
            ]
    ]

never :
    (account : Text) (since : Time) (j : RenewalJob) (o finish : Option Time)
    → spent_by account since j finish ≡ true
    → earliest o finish ≡ none
    → ⊥
unfolding spent_by earliest
never account since j o none e h = cc
never account since j none (some d) e h = cc
never account since j (some a) (some d) e h = elim (Bool-cases (before d a)) [
  | inl c ↦ absurd (cc (rw (c) at h))
  | inr c ↦ absurd (cc (rw (c) at h))
]

oldest-none :
    (account : Text) (since : Time) (n : ℕ) (oldest : Option Time) (js : List RenewalJob)
    → (count_recent_from account since n oldest js).1 ≡ none
    → (oldest ≡ none) × (total (spends account since) js ≡ 0)
unfolding count_recent_from
oldest-none account since n oldest [] h = (h, refl)
oldest-none account since n oldest (j ∷ js) h =
    elim (Bool-cases (spent_by account since j j.completed_at)) [
      | inr e ↦
          let (a, b) = oldest-none account since n oldest js (rw (e, count_recent_from) at h) in
          (a, rw (e) (omega (arith, b)))
      | inl e ↦
          let (a, b) =
            oldest-none account since (suc n) (earliest oldest j.completed_at) js
              (rw (e, count_recent_from) at h) in
          absurd (never account since j oldest j.completed_at e a)
    ]

in_window :
    (account : Text) (since t : Time) (j : RenewalJob)
    → j.completed_at ≡ some t
    → spends account since j ≡ 1
    → since ≤ t
unfolding spent_by
in_window account since t j e h = ground (arith, rw e at h)

out_of_window :
    (account : Text) (later t : Time) (j : RenewalJob)
    → j.completed_at ≡ some t
    → t < later
    → spends account later j ≡ 0
unfolding spent_by
out_of_window account later t j e h = rw e (ground arith)

-- What the count and the oldest renewal of a window promise: with none the count is zero; else the oldest is in
-- the window, and fewer are left of it once the oldest has left.
pub record Recent (account : Text) (since : Time) (jobs : List RenewalJob) (count : ℕ)
    (oldest : Option Time) : Type 0 where
  pub none_counted : oldest ≡ none → count ≡ 0
  pub in_it : (t : Time) → oldest ≡ some t → since ≤ t
  pub ages :
      (t later : Time)
      → oldest ≡ some t
      → t < later
      → since ≤ later
      → (count_recent_renewals account later jobs).0 < count

pub count_recent_renewals-Recent :
    (account : Text) (since : Time) (jobs : List RenewalJob)
    → Recent account since jobs
        (count_recent_renewals account since jobs).0
        (count_recent_renewals account since jobs).1
unfolding count_recent_renewals
count_recent_renewals-Recent account since jobs = record {
  none_counted = λ e.
      counted-total account since 0 none jobs
      ∙ ap (λ k. 0 + k) (oldest-none account since 0 none jobs e).1;
  in_it = λ t e. elim (oldest-some account since 0 none jobs t e) [
    | inl wrong ↦ absurd cc
    | inr (i, j, at, ended, inside) ↦ in_window account since t j ended inside
  ];
  ages = λ t later e h k. elim (oldest-some account since 0 none jobs t e) [
    | inl wrong ↦ absurd cc
    | inr (i, j, at, ended, inside) ↦ omega (
      arith,
      counted-total account since 0 none jobs,
      counted-total account later 0 none jobs,
      total-left account since later jobs i j k at inside (out_of_window account later t j ended h),
    )
  ];
}
