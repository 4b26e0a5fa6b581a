-- ===== src/Signin/Changed.antt =====
-- core/api/login.go: what a change of the password leaves behind.
use certpilot.Prelude.{
  ◌≡◌, ◌≢◌, refl, sym, ap, ◌∙◌, inl, inr, arith, Bool-cases, true, false, Option, none, some, Text,
  Time, empty_text, ◌==◌, ==_iff, Option-cases, All, All-map, All-append, is_none,
}
use certpilot.Signin.{Accounts, Session, User, find_user, get_user}
use certpilot.Signin.Passwords.{
  LoginOutcome, authenticate_password, login_ok, put, set_hashed, set_user_password,
}
use certpilot.Signin.Sessions.{create_session, new_session, revoke_sessions_for_user}
use certpilot.Signin.Handlers.{
  Client, Hashing, change_checked, change_for, change_password, changed, end_sessions, is_ok,
  signed_in_again,
}
use certpilot.Signin.Ended.{IsEnded, revoke_where-hits}

-- What holds of the accounts once a password is changed.
pub record Changed (h : Hashing) (token : Option Text) (user_id new : Text) (st : Accounts)
    : Type 0 where
  -- The hash is that of the new password, and the throttle is cleared.
  pub hashed : some (st.password_hashes user_id) ≡ h.hash new
  pub cleared : st.login_failures user_id ≡ none
  -- A session of the account that is not revoked is the one just opened.
  pub only_session :
      All
        (λ s. s.user_id ≡ user_id → is_none s.revoked_at ≡ true → token ≡ some s.token_hash)
        st.sessions

put_same :
    {A : Type 0} (key : Text) (value : A) (entries : Text → A) → put key value entries key ≡ value
put_same key value entries = rw ((==_iff key key).1 refl) refl

module _ (h : Hashing) (fresh : Text) (clock : Time) (client : Client) (user_id new : Text) where
  OnlySession : Option Text → Session → Type 0
  OnlySession token s =
      s.user_id ≡ user_id → is_none s.revoked_at ≡ true → token ≡ some s.token_hash

  ended_is_only :
      (token : Option Text) (s : Session) → IsEnded (λ t k. k == user_id) s → OnlySession token s
  unfolding OnlySession
  ended_is_only token s is_ended same live =
      let revoked = is_ended ((==_iff s.user_id user_id).1 same) in
      absurd (ground (arith, revoked, live))

  signed_in_again-Changed :
      (token : Option Text) (st : Accounts)
      → some (st.password_hashes user_id) ≡ h.hash new
      → st.login_failures user_id ≡ none
      → All (IsEnded (λ t k. k == user_id)) st.sessions
      → Changed h token user_id new (signed_in_again fresh clock client token user_id st)
  unfolding signed_in_again create_session new_session OnlySession
  signed_in_again-Changed none st is_hash is_clear ended = record {
    hashed = is_hash;
    cleared = is_clear;
    only_session =
        All-map (IsEnded (λ t k. k == user_id)) (OnlySession none) st.sessions (ended_is_only none)
          ended;
  }
  signed_in_again-Changed (some t) st is_hash is_clear ended = record {
    hashed = is_hash;
    cleared = is_clear;
    only_session =
        All-append (OnlySession (some t)) st.sessions _
          (All-map (IsEnded (λ t k. k == user_id)) (OnlySession (some t)) st.sessions
            (ended_is_only (some t)) ended)
          (λ same live. refl, tt);
  }

  end_sessions-Changed :
      (token : Option Text) (st : Accounts) (made : Option Text)
      → h.hash new ≡ made
      → (end_sessions fresh clock client token user_id st
          (set_hashed h.hash user_id made false st)).1
        ≡ changed
      → Changed h token user_id new
          (end_sessions fresh clock client token user_id st
            (set_hashed h.hash user_id made false st)).0
  unfolding end_sessions set_hashed revoke_sessions_for_user
  end_sessions-Changed token st none e c = cc
  end_sessions-Changed token st (some made) e c =
      elim (Bool-cases (is_none (find_user user_id st.users))) [
        | inl missing ↦ let bad = rw (missing) at c in cc
        | inr found ↦ rw (found) (
            signed_in_again-Changed token _
              (ap some (put_same user_id made st.password_hashes) ∙ sym e)
              (put_same user_id none st.login_failures)
              (revoke_where-hits (λ t k. k == user_id) clock st.sessions))
      ]

  is_ok-login_ok : (o : LoginOutcome) → is_ok o ≡ true → o ≡ login_ok
  unfolding is_ok
  is_ok-login_ok o e = ground (arith, e)

  change_checked-Changed :
      (token : Option Text) (current : Text) (st : Accounts) (found : Option User)
      (o : LoginOutcome)
      → (change_checked h fresh clock client token user_id current new (st, found, o)).1 ≡ changed
      → Changed h token user_id new
          (change_checked h fresh clock client token user_id current new (st, found, o)).0
        × (o ≡ login_ok)
        × (h.is_valid new ≡ true)
        × (new ≢ current)
  unfolding change_checked set_user_password is_ok
  change_checked-Changed token current st found o c = elim (Bool-cases (is_ok o)) [
    | inr e ↦ let bad = rw (e) at c in cc
    | inl e ↦ elim (Bool-cases (h.is_valid new)) [
      | inr f ↦ let bad = rw (e, f) at c in cc
      | inl f ↦ elim (Bool-cases (new == current)) [
        | inl g ↦ let bad = rw (e, f, g) at c in cc
        | inr g ↦
            rw (e, f, g)
              (
                end_sessions-Changed token st (h.hash new) refl (rw (e, f, g) at c),
                is_ok-login_ok o e,
                refl,
                λ same. ground (arith, g, same),
              )
      ]
    ]
  ]

-- A change of the password that reports success was made by a caller whose current password signed in to the
-- account at its address, with a new password that is valid and another one. After it the account's hash is
-- the new password's, its throttle is cleared, and every session of the account is revoked except one that
-- carries the token given with the change.
pub change_password-Changed :
    (h : Hashing) (fresh : Text) (clock : Time) (client : Client) (token : Option Text)
    (user_id current new : Text) (st : Accounts)
    → (change_password h fresh clock client token user_id current new st).1 ≡ changed
    → (u : User) × (get_user user_id st ≡ some u)
      × Changed h token user_id new
          (change_password h fresh clock client token user_id current new st).0
      × ((authenticate_password h.verify clock u.email current st).2 ≡ login_ok)
      × (h.is_valid new ≡ true)
      × (new ≢ current)
unfolding change_password change_for
change_password-Changed h fresh clock client token user_id current new st c =
    elim (Bool-cases (user_id == empty_text)) [
      | inl e ↦ let bad = rw (e) at c in cc
      | inr e ↦ elim (Option-cases (get_user user_id st)) [
        | inl f ↦ let bad = rw (e, f) at c in cc
        | inr (u, f) ↦
            let r = authenticate_password h.verify clock u.email current st in
            let (state, signed, valid, other) =
              change_checked-Changed h fresh clock client user_id new token current r.0 r.1 r.2
                (rw (e, f) at c) in
            rw (e, f) (u, refl, state, signed, valid, other)
      ]
    ]
