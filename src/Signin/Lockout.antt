-- ===== src/Signin/Lockout.antt =====
-- core/store/inmemory_sessions.go: how many guesses the throttle leaves on one account, whatever else happens.
use certpilot.Prelude.{
  ℕ, suc, max, ◌+◌, ◌-◌, ◌≤◌, ◌<◌, ◌≡◌, ◌≢◌, ◌⊎◌, refl, sym, ap, subst, ◌∙◌, inl, inr, arith, Bool,
  Bool-cases, true, false, Option, none, some, List, [], ◌∷◌, Text, Time, ◌==◌, ==_iff,
  if◌then◌else◌, All, Result, ok, err, ◌||◌, empty_text,
}
use certpilot.Audit.Bytes.{Bytes}
use certpilot.Signin.{
  AccountError, Accounts, LoginState, Role, Status, User, UserIdentity, resolve_user, set_user_role,
  set_user_status, touch_user, user_by_email,
}
use certpilot.Signin.Passwords.{
  LoginOutcome, authenticate_found, authenticate_password, judge_account, judge_password,
  lockout_window, login_ok, max_failed_logins, or_fresh, put, wrong_password,
}
use certpilot.Signin.Sessions.{
  create_session, one_if, revoke_session, revoke_sessions_for_user, touch_session,
}
use certpilot.Signin.Throttle.{Allows, after_wrong-Allows, judge_password-cases, throttle}

-- What happens to the accounts, apart from a new password.
pub data Event : Type 0 where
  attempt : Time → Bytes → Text → Event
  resolved : Text → Time → UserIdentity → List Bytes → Event
  given_role : Time → Text → Role → Event
  given_status : Time → Text → Status → Event
  touched : Text → Time → Event
  opened : Text → Time → Text → Text → Time → Text → Text → Event
  ended : Time → Text → Event
  all_ended : Time → Text → Event
  session_touched : Text → Time → Text → Event

unfoldable pub resolved_or : Accounts → Result AccountError (Accounts × User) → Accounts
resolved_or st (ok r) = r.0
resolved_or st (err e) = st

module _ (verify : Text → Text → Bool) where
  unfoldable pub play : Event → Accounts → Accounts
  unfolding authenticate_password resolve_user set_user_role set_user_status touch_user
      create_session revoke_session revoke_sessions_for_user touch_session
  play (attempt clock email password) st = (authenticate_password verify clock email password st).0
  play (resolved fresh clock identity admins) st =
      resolved_or st (resolve_user fresh clock identity admins st)
  play (given_role clock id role) st = (set_user_role clock id role st).0
  play (given_status clock id status) st = (set_user_status clock id status st).0
  play (touched id seen_at) st = touch_user id seen_at st
  play (opened fresh clock user_id token_hash expires_at user_agent ip) st =
      (create_session fresh clock user_id token_hash expires_at user_agent ip st).0
  play (ended clock token_hash) st = revoke_session clock token_hash st
  play (all_ended clock user_id) st = (revoke_sessions_for_user clock user_id st).0
  play (session_touched id seen_at ip) st = touch_session id seen_at ip st

  -- How an attempt ends for an account: no outcome where it is another's.
  outcome_for : Text → Option User → LoginOutcome → Option LoginOutcome
  outcome_for id none o = none
  outcome_for id (some u) o = if u.id == id then some o else none

  unfoldable pub outcome : Text → Event → Accounts → Option LoginOutcome
  unfolding outcome_for authenticate_password
  outcome id (attempt clock email password) st =
      let r = authenticate_password verify clock email password st in outcome_for id r.1 r.2
  outcome id _ st = none

  is_wrong : Option LoginOutcome → Bool
  is_wrong (some wrong_password) = true
  is_wrong _ = false

  -- The wrong passwords given for an account.
  unfoldable pub wrongs : Text → List Event → Accounts → ℕ
  unfolding outcome is_wrong play
  wrongs id [] st = 0
  wrongs id (e ∷ es) st = one_if (is_wrong (outcome id e st)) + wrongs id es (play e st)

-- No event signs in to the account.
abbrev pub NoSuccess : (Text → Text → Bool) → Text → List Event → Accounts → Type 0
NoSuccess verify id [] st = Unit
NoSuccess verify id (e ∷ es) st =
    (outcome verify id e st ≢ some login_ok) × NoSuccess verify id es (play verify e st)

-- An attempt lies within one lockout window from the start.
abbrev pub Within : Time → Event → Type 0
Within start (attempt clock email password) = (start ≤ clock) × (clock < start + lockout_window)
Within start _ = Unit

module _ (verify : Text → Text → Bool) (id : Text) (start : Time) where
  -- One event: a wrong password, or the throttle as it was.
  Kept : ℕ → Event → Accounts → Type 0
  Kept n e st =
      ((is_wrong verify (outcome verify id e st) ≡ true)
        × (m : ℕ) × (n ≡ suc m)
        × Allows (start + lockout_window) m (throttle (play verify e st) id))
      ⊎ ((is_wrong verify (outcome verify id e st) ≡ false)
          × Allows (start + lockout_window) n (throttle (play verify e st) id))

  -- The same of what follows the lookup of the account.
  FoundKept : ℕ → Time → Option User → Text → Accounts → Type 0
  FoundKept n clock found password st =
      let r = authenticate_found verify clock found password st in
      ((is_wrong verify (outcome_for verify id r.1 r.2) ≡ true)
        × (m : ℕ) × (n ≡ suc m)
        × Allows (start + lockout_window) m (throttle r.0 id))
      ⊎ ((is_wrong verify (outcome_for verify id r.1 r.2) ≡ false)
          × Allows (start + lockout_window) n (throttle r.0 id))

  put_same :
      (key k : Text) (value : Option LoginState) (entries : Text → Option LoginState)
      → (key == k) ≡ true
      → put key value entries k ≡ value
  put_same key k value entries h = ground arith

  put_other :
      (key k : Text) (value : Option LoginState) (entries : Text → Option LoginState)
      → (key == k) ≡ false
      → put key value entries k ≡ entries k
  put_other key k value entries h = ground arith

  judge_account-throttle :
      (clock : ℕ) (u : User) (password : Text) (st : Accounts)
      → (u.id == id) ≡ true
      → throttle (judge_account verify clock u password st).0 id
        ≡ (judge_password verify clock u (st.password_hashes u.id) password (throttle st u.id)).0
  unfolding judge_account or_fresh
  judge_account-throttle clock u password st same =
      ap or_fresh (put_same u.id id (some _) st.login_failures same)

  is_wrong-false : (o : LoginOutcome) → o ≢ wrong_password → is_wrong verify (some o) ≡ false
  unfolding is_wrong
  is_wrong-false o h = ground arith

  judged-Kept :
      (n clock : ℕ) (u : User) (password : Text) (st : Accounts)
      → (start ≤ clock) × (clock < start + lockout_window)
      → (judge_account verify clock u password st).2 ≢ login_ok
      → (u.id == id) ≡ true
      → Allows (start + lockout_window) n (throttle st id)
      → FoundKept n clock (some u) password st
  unfolding FoundKept outcome_for is_wrong judge_account authenticate_found
  judged-Kept n clock u password st h refused same allowed =
      let s = throttle st u.id in
      let at_u : Allows (start + lockout_window) n s =
        subst (λ k. Allows (start + lockout_window) n (throttle st k))
          (sym ((==_iff u.id id).0 same)) allowed in
      let here = judge_account-throttle clock u password st same in
      elim (judge_password-cases verify clock u (st.password_hashes u.id) password s) [
        | inl (e, unlocked) ↦
            let (m, eq, next) = after_wrong-Allows verify start clock n s h.0 h.1 unlocked at_u in
            inl (
              rw (same, ap (λ r. r.1) e) refl,
              m,
              eq,
              subst (Allows (start + lockout_window) m) (sym (here ∙ ap (λ r. r.0) e)) next,
            )
        | inr (inl (kept, other)) ↦ inr (
          rw (same) (is_wrong-false _ other),
          subst (Allows (start + lockout_window) n) (sym (here ∙ kept)) at_u,
        )
        | inr (inr ok_here) ↦ absurd (refused ok_here)
      ]

  found-Kept :
      (n clock : ℕ) (found : Option User) (password : Text) (st : Accounts)
      → (start ≤ clock) × (clock < start + lockout_window)
      → (let r = authenticate_found verify clock found password st in
          outcome_for verify id r.1 r.2 ≢ some login_ok)
      → Allows (start + lockout_window) n (throttle st id)
      → FoundKept n clock found password st
  unfolding FoundKept outcome_for is_wrong authenticate_found
  found-Kept n clock none password st h refused allowed = inr (refl, allowed)
  found-Kept n clock (some u) password st h refused allowed = elim (Bool-cases (u.id == id)) [
    | inl e ↦ judged-Kept n clock u password st h (λ o. refused (rw (e) (ap some o))) e allowed
    | inr e ↦ inr (rw (e) refl, rw (put_other u.id id (some _) st.login_failures e) allowed)
  ]

  play-Kept :
      (n : ℕ) (e : Event) (st : Accounts)
      → Within start e
      → outcome verify id e st ≢ some login_ok
      → Allows (start + lockout_window) n (throttle st id)
      → Kept n e st
  unfolding Kept FoundKept outcome play authenticate_password resolve_user is_wrong resolved_or
  play-Kept n (attempt clock email password) st h refused allowed =
      found-Kept n clock (user_by_email email st) password st h refused allowed
  play-Kept n (resolved fresh clock identity admins) st h refused allowed =
      elim (Bool-cases (identity.issuer == empty_text || identity.subject == empty_text)) [
        | inl e ↦ rw (e) (inr (refl, allowed))
        | inr e ↦ rw (e) (inr (refl, allowed))
      ]
  play-Kept n _ st h refused allowed = inr (refl, allowed)

  wrongs-Allows :
      (n : ℕ) (es : List Event) (st : Accounts)
      → All (Within start) es
      → NoSuccess verify id es st
      → Allows (start + lockout_window) n (throttle st id)
      → wrongs verify id es st ≤ n
  unfolding wrongs Kept
  wrongs-Allows n [] st h1 h2 allowed = ground arith
  wrongs-Allows n (e ∷ es) st h1 h2 allowed = elim (play-Kept n e st h1.0 h2.0 allowed) [
    | inl (w, m, eq, next) ↦
        let rest = wrongs-Allows m es (play verify e st) h1.1 h2.1 next in
        ground (arith, w, eq, rest)
    | inr (w, next) ↦
        let rest = wrongs-Allows n es (play verify e st) h1.1 h2.1 next in ground (arith, w, rest)
  ]

-- Within any fifteen minutes in which nobody signs in to an account, no more wrong passwords are judged for
-- it than are left of the eight failures at their start, or one where none is left - whatever addresses are
-- tried in between, and whatever else happens to the accounts short of a new password.
pub wrongs_bounded :
    (verify : Text → Text → Bool) (id : Text) (start : Time) (es : List Event) (st : Accounts)
    → All (Within start) es
    → NoSuccess verify id es st
    → wrongs verify id es st ≤ max 1 (max_failed_logins - (throttle st id).failed)
wrongs_bounded verify id start es st h1 h2 =
    wrongs-Allows verify id start (max 1 (max_failed_logins - (throttle st id).failed)) es st h1 h2
      (inr (omega arith, omega arith))
