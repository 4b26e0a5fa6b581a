-- ===== src/Signin/Passwords.antt =====
-- core/store/inmemory_sessions.go: sign-in with a password, and its throttle. The hashing of pkg/passwords is
-- a parameter: `verify password hash` tells that the password is the hash's, `hash` is none where it fails.
use certpilot.Prelude.{
  ℕ, suc, ◌+◌, ◌*◌, Bool, false, not, Option, none, some, Text, Time, Duration, minute, before,
  empty_text, ◌==◌, leb, if◌then◌else◌, Result, ok, err, is_none,
}
use certpilot.Audit.Bytes.{Bytes}
use certpilot.Signin.{
  Accounts, AccountError, LoginState, User, is_active, no_hash, no_user, find_user, update_user,
  user_by_email,
}

pub data LoginOutcome : Type 0 where
  login_ok no_such_account wrong_password locked_out suspended_account no_password_set :
      LoginOutcome

abbrev pub max_failed_logins : ℕ
max_failed_logins = 8

abbrev pub lockout_window : Duration
lockout_window = 15 * minute

-- A write to a map.
abbrev pub put : {A : Type 0} → Text → A → (Text → A) → Text → A
put key value entries k = if k == key then value else entries k

unfoldable pub or_fresh : Option LoginState → LoginState
or_fresh none = record { failed = 0; locked_until = none }
or_fresh (some s) = s

unfoldable pub is_locked : Time → LoginState → Bool
is_locked clock s = elim s.locked_until [ none ↦ false | some until ↦ before clock until ]

unfoldable pub after_wrong : Time → LoginState → LoginState
after_wrong clock s = record {
  failed = suc s.failed;
  locked_until =
      if leb max_failed_logins (suc s.failed)
      then some (clock + lockout_window)
      else s.locked_until;
}

module _ (verify : Text → Text → Bool) where
  -- What follows the lookup of the account, on the throttle's state: the state it leaves, and the outcome.
  unfoldable pub judge_password : Time → User → Text → Text → LoginState → LoginState × LoginOutcome
  unfolding is_locked is_active after_wrong
  judge_password clock u hash password s =
      if is_locked clock s
      then (s, locked_out)
      else if not (is_active u)
      then (s, suspended_account)
      else if hash == empty_text
      then (s, no_password_set)
      else if verify password hash
      then (record { failed = 0; locked_until = none }, login_ok)
      else (after_wrong clock s, wrong_password)

  unfoldable pub judge_account :
      Time → User → Text → Accounts → Accounts × Option User × LoginOutcome
  unfolding judge_password or_fresh
  judge_account clock u password st =
      let judged =
        judge_password clock u (st.password_hashes u.id) password
          (or_fresh (st.login_failures u.id)) in
      (record st { login_failures = put u.id (some judged.0) st.login_failures }, some u, judged.1)

  unfoldable pub authenticate_found :
      Time → Option User → Text → Accounts → Accounts × Option User × LoginOutcome
  unfolding judge_account
  authenticate_found clock none password st = (st, none, no_such_account)
  authenticate_found clock (some u) password st = judge_account clock u password st

  unfoldable pub authenticate_password :
      Time → Bytes → Text → Accounts → Accounts × Option User × LoginOutcome
  unfolding authenticate_found
  authenticate_password clock email password st =
      authenticate_found clock (user_by_email email st) password st

module _ (hash : Text → Option Text) where
  unfoldable pub set_hashed : Text → Option Text → Bool → Accounts → Result AccountError Accounts
  set_hashed id none must_change st = err no_hash
  set_hashed id (some hashed) must_change st =
      if is_none (find_user id st.users)
      then err (no_user id)
      else ok (record st {
        password_hashes = put id hashed st.password_hashes;
        users = update_user id (λ u. record u { must_change_password = must_change }) st.users;
        login_failures = put id none st.login_failures;
      })

  unfoldable pub set_user_password : Text → Text → Bool → Accounts → Result AccountError Accounts
  unfolding set_hashed
  set_user_password id password must_change st = set_hashed id (hash password) must_change st
