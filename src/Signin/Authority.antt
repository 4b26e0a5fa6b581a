-- ===== src/Signin/Authority.antt =====
-- core/store/inmemory_users.go: what a sign-in through a provider does to the accounts.
use certpilot.Prelude.{
  ◌≡◌, ◌⊎◌, refl, sym, ap, subst, inl, inr, arith, Bool, Bool-cases, true, false, ◌&&◌, ◌||◌, List,
  [], ◌∷◌, ◌++◌, map, Text, Time, empty_text, ◌==◌, if◌then◌else◌, All, ok, ok_injective,
}
use certpilot.Audit.Bytes.{Bytes}
use certpilot.Signin.{
  Accounts, Role, RoleSource, Status, User, UserIdentity, admin, bootstrap, default, named_admin,
  new_user, refreshed, resolve_in, resolve_user, viewer,
}

-- What an account may do.
pub record Authority : Type 0 where
  pub id : Text
  pub role : Role
  pub status : Status
  pub role_source : RoleSource

abbrev pub authority : User → Authority
authority u = record { id = u.id; role = u.role; status = u.status; role_source = u.role_source }

abbrev pub is_identity : Text → Text → User → Bool
is_identity issuer subject u = u.issuer == issuer && u.subject == subject

-- The account is among those that were there, whose authority is as it was; or it is new, and an
-- administrator exactly if its address is on the list.
abbrev pub Resolved : Text → UserIdentity → List Bytes → List User → List User → User → Type 0
Resolved fresh identity admins us vs u =
    (map authority vs ≡ map authority us)
    ⊎ ((vs ≡ us ++ u ∷ [])
        × (authority u ≡ record {
          id = fresh;
          role = if named_admin identity admins then admin else viewer;
          status = Status.active;
          role_source = if named_admin identity admins then bootstrap else default;
        }))

-- No two accounts have one issuer and one subject.
abbrev pub Distinct : List User → Type 0
Distinct [] = Unit
Distinct (u ∷ us) = All (λ v. is_identity u.issuer u.subject v ≡ false) us × Distinct us

module _ (fresh : Text) (clock : Time) (identity : UserIdentity) (admins : List Bytes) where
  resolve_in-Resolved :
      (us : List User)
      → let r = resolve_in fresh clock identity admins us in
        Resolved fresh identity admins us r.0 r.1
  unfolding resolve_in new_user refreshed
  resolve_in-Resolved [] = inr (refl, refl)
  resolve_in-Resolved (u ∷ us) =
      elim (Bool-cases (u.issuer == identity.issuer && u.subject == identity.subject)) [
        | inl e ↦ rw (e) (inl refl)
        | inr e ↦ elim (resolve_in-Resolved us) [
          | inl kept ↦ rw (e) (inl (ap (λ t. authority u ∷ t) kept))
          | inr (added, new) ↦ rw (e) (inr (ap (λ t. u ∷ t) added, new))
        ]
      ]

  resolve_in-identity :
      (us : List User)
      → is_identity identity.issuer identity.subject (resolve_in fresh clock identity admins us).1
        ≡ true
  unfolding resolve_in new_user refreshed
  resolve_in-identity [] = ground arith
  resolve_in-identity (u ∷ us) =
      elim (Bool-cases (u.issuer == identity.issuer && u.subject == identity.subject)) [
        | inl e ↦ rw (e) e
        | inr e ↦ rw (e) (resolve_in-identity us)
      ]

  resolve_in-others :
      (issuer subject : Text) (us : List User)
      → issuer == identity.issuer && subject == identity.subject ≡ false
      → All (λ v. is_identity issuer subject v ≡ false) us
      → All
          (λ v. is_identity issuer subject v ≡ false)
          (resolve_in fresh clock identity admins us).0
  unfolding resolve_in new_user refreshed
  resolve_in-others issuer subject [] other h = (ground (arith, other), tt)
  resolve_in-others issuer subject (u ∷ us) other h =
      elim (Bool-cases (u.issuer == identity.issuer && u.subject == identity.subject)) [
        | inl e ↦ rw (e) (h.0, h.1)
        | inr e ↦ rw (e) (h.0, resolve_in-others issuer subject us other h.1)
      ]

  resolve_in-Distinct :
      (us : List User) → Distinct us → Distinct (resolve_in fresh clock identity admins us).0
  unfolding resolve_in refreshed
  resolve_in-Distinct [] h = (tt, tt)
  resolve_in-Distinct (u ∷ us) h =
      elim (Bool-cases (u.issuer == identity.issuer && u.subject == identity.subject)) [
        | inl e ↦ rw (e) (h.0, h.1)
        | inr e ↦ rw (e) (resolve_in-others u.issuer u.subject us e h.0, resolve_in-Distinct us h.1)
      ]

  resolved_ok :
      (st : Accounts) {st2 : Accounts} {u : User}
      → resolve_user fresh clock identity admins st ≡ ok (st2, u)
      → (st2.users ≡ (resolve_in fresh clock identity admins st.users).0)
        × (u ≡ (resolve_in fresh clock identity admins st.users).1)
  unfolding resolve_user
  resolved_ok st h =
      elim (Bool-cases (identity.issuer == empty_text || identity.subject == empty_text)) [
        | inl e ↦ let bad = rw (e) at h in cc
        | inr e ↦
            let same = ok_injective (rw (e) at h) in
            (ap (λ r. r.0.users) (sym same), ap (λ r. r.1) (sym same))
      ]

-- Where an identity is resolved, either all accounts keep their role, its source and their status, or the
-- account that is returned is added behind them: active, an administrator if its address is among the
-- bootstrap administrators, and a viewer otherwise. The account that is returned has the identity's issuer
-- and subject.
pub resolve_user-authority :
    (fresh : Text) (clock : Time) (identity : UserIdentity) (admins : List Bytes)
    (st st2 : Accounts) (u : User)
    → resolve_user fresh clock identity admins st ≡ ok (st2, u)
    → Resolved fresh identity admins st.users st2.users u
      × (is_identity identity.issuer identity.subject u ≡ true)
resolve_user-authority fresh clock identity admins st st2 u h =
    let (users, user) = resolved_ok fresh clock identity admins st h in
    let r = resolve_in fresh clock identity admins st.users in
    (
      subst (λ us. Resolved fresh identity admins st.users us u) (sym users)
          (subst (Resolved fresh identity admins st.users r.0) (sym user)
            (resolve_in-Resolved fresh clock identity admins st.users)),
      subst (λ v. is_identity identity.issuer identity.subject v ≡ true) (sym user)
          (resolve_in-identity fresh clock identity admins st.users),
    )

-- Where no two accounts have the same issuer and subject, resolving an identity leaves it so.
pub resolve_user-Distinct :
    (fresh : Text) (clock : Time) (identity : UserIdentity) (admins : List Bytes)
    (st st2 : Accounts) (u : User)
    → Distinct st.users
    → resolve_user fresh clock identity admins st ≡ ok (st2, u)
    → Distinct st2.users
resolve_user-Distinct fresh clock identity admins st st2 u d h =
    let (users, user) = resolved_ok fresh clock identity admins st h in
    subst Distinct (sym users) (resolve_in-Distinct fresh clock identity admins st.users d)
