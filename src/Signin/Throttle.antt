-- ===== src/Signin/Throttle.antt =====
-- core/store/inmemory_sessions.go: what one password sign-in decides, and what it leaves of the throttle.
use certpilot.Prelude.{
  ℕ, zero, suc, ◌+◌, ◌≤◌, ◌<◌, ◌≡◌, ◌≢◌, ◌↔◌, ◌⊎◌, refl, sym, subst, inl, inr, arith, Bool, true,
  false, none, some, Text, Time, empty_text, Option-cases,
}
use certpilot.Audit.Bytes.{Bytes}
use certpilot.Signin.{Accounts, LoginState, User, is_active, user_by_email}
use certpilot.Signin.Passwords.{
  after_wrong, authenticate_password, is_locked, judge_account, judge_password, lockout_window,
  login_ok, max_failed_logins, or_fresh, wrong_password,
}

abbrev pub throttle : Accounts → Text → LoginState
throttle st id = or_fresh (st.login_failures id)

abbrev pub lock_end : LoginState → Time
lock_end s = elim s.locked_until [ none ↦ 0 | some until ↦ until ]

-- The account is locked up to the deadline, or at least one guess is left and eight failures are reached
-- no later than with the last of the guesses.
abbrev pub Allows : Time → ℕ → LoginState → Type 0
Allows deadline n s = (deadline ≤ lock_end s) ⊎ ((1 ≤ n) × (max_failed_logins ≤ s.failed + n))

-- The account is not locked at that moment, is active, has a password, and the password given is its own.
pub record SignsIn (verify : Text → Text → Bool) (clock : Time) (password : Text) (st : Accounts)
    (u : User) : Type 0 where
  pub unlocked : is_locked clock (throttle st u.id) ≡ false
  pub is_current : is_active u ≡ true
  pub has_password : st.password_hashes u.id ≢ empty_text
  pub verified : verify password (st.password_hashes u.id) ≡ true

some_injective : {A : Type 0} {a b : A} → some a ≡ some b → a ≡ b
some_injective p = cc

module _ (verify : Text → Text → Bool) where
  -- A wrong password on an account that is not locked, a refusal that leaves the throttle as it was, or a
  -- sign-in.
  pub judge_password-cases :
      (clock : Time) (u : User) (hash password : Text) (s : LoginState)
      → ((judge_password verify clock u hash password s ≡ (after_wrong clock s, wrong_password))
          × (is_locked clock s ≡ false))
        ⊎ (((judge_password verify clock u hash password s).0 ≡ s)
            × ((judge_password verify clock u hash password s).1 ≢ wrong_password))
        ⊎ ((judge_password verify clock u hash password s).1 ≡ login_ok)
  unfolding judge_password
  judge_password-cases clock u hash password s = ground arith

  -- A wrong password uses up a guess.
  pub after_wrong-Allows :
      (start clock n : ℕ) (s : LoginState)
      → start ≤ clock
      → clock < start + lockout_window
      → is_locked clock s ≡ false
      → Allows (start + lockout_window) n s
      → (m : ℕ) × (n ≡ suc m) × Allows (start + lockout_window) m (after_wrong clock s)
  unfolding is_locked after_wrong
  after_wrong-Allows start clock zero s h1 h2 unlocked allowed = absurd (ground arith)
  after_wrong-Allows start clock (suc n) s h1 h2 unlocked allowed = (n, refl, ground arith)

  judge_account-login_ok_iff :
      (clock : Time) (u : User) (password : Text) (st : Accounts)
      → ((judge_account verify clock u password st).2 ≡ login_ok)
        ↔ SignsIn verify clock password st u
  unfolding judge_account judge_password
  judge_account-login_ok_iff clock u password st = (
    λ h. record {
      unlocked = ground arith;
      is_current = ground arith;
      has_password = ground arith;
      verified = ground arith;
    },
    λ r. ground (arith, r.unlocked, r.is_current, r.has_password, r.verified),
  )

  -- A password sign-in succeeds exactly if an account has the address, is not locked at that moment, is
  -- active, has a password, and the password given is its own.
  pub authenticate_password-login_ok_iff :
      (clock : Time) (email : Bytes) (password : Text) (st : Accounts)
      → ((authenticate_password verify clock email password st).2 ≡ login_ok)
        ↔ ((u : User) × (user_by_email email st ≡ some u) × SignsIn verify clock password st u)
  unfolding authenticate_password judge_password
  authenticate_password-login_ok_iff clock email password st =
      elim (Option-cases (user_by_email email st)) [
        | inl e ↦ rw (e) (ground arith)
        | inr (u, e) ↦ rw (e) (
          λ h. (u, refl, (judge_account-login_ok_iff clock u password st).0 h),
          λ (x, same, h).
              (judge_account-login_ok_iff clock u password st).1
                (subst (SignsIn verify clock password st) (sym (some_injective same)) h),
        )
      ]
