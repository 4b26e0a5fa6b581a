-- ===== src/Signin/Examples.antt =====
-- The accounts on concrete runs.
use certpilot.Prelude.{
  ◌≡◌, ◌≢◌, ◌↔◌, ◌≤◌, ◌-◌, max, refl, true, false, none, some, List, [], ◌∷◌, Text, Time, ◌==◌, All,
  ok, err, ◌+◌, if◌then◌else◌, arith,
}
use certpilot.Audit.Bytes.{Bytes, bytes_eq}
use certpilot.Text.{to_lower, trim_space}
use certpilot.Signin.{
  Accounts, Session, Status, User, UserIdentity, admin, bootstrap, get_user, resolve_user,
  set_user_status, user_by_email, is_active,
}
use certpilot.Signin.Passwords.{
  authenticate_password, locked_out, login_ok, max_failed_logins, wrong_password,
}
use certpilot.Signin.Sessions.{session_by_hash}
use certpilot.Signin.Handlers.{
  Client, Hashing, change_password, changed, let_in, logout, session_auth,
}
use certpilot.Signin.Throttle.{SignsIn, authenticate_password-login_ok_iff, throttle}
use certpilot.Signin.Lockout.{
  Event, NoSuccess, Within, attempt, opened, wrongs, wrongs_bounded, play, outcome,
}
use certpilot.Signin.Ended.{run_events}
use certpilot.Signin.Admitted.{
  LetInBy, logout-refused, session_auth-let_in_iff, set_user_status-refused,
}
use certpilot.Signin.Authority.{
  Distinct, Resolved, is_identity, resolve_user-Distinct, resolve_user-authority,
}
use certpilot.Signin.Changed.{Changed, change_password-Changed}

abbrev address : Bytes
address = b'a' ∷ b'@' ∷ b'b' ∷ []

abbrev alice : User
alice = record {
  id = 1;
  issuer = 2;
  subject = 3;
  email = address;
  display_name = 4;
  role = admin;
  status = Status.active;
  role_source = bootstrap;
  must_change_password = false;
  last_seen_at = none;
  created_at = 10;
  updated_at = 10;
}

abbrev session : Session
session = record {
  id = 20;
  user_id = 1;
  token_hash = 21;
  expires_at = 1000;
  revoked_at = none;
  last_seen_at = none;
  last_seen_ip = 0;
  user_agent = 0;
  created_at = 10;
}

abbrev accounts : Accounts
accounts = record {
  users = alice ∷ [];
  password_hashes = λ k. if k == 1 then 105 else 0;
  login_failures = λ k. none;
  sessions = session ∷ [];
}

-- The hash of a password is a hundred more.
abbrev hashing : Hashing
hashing = record {
  verify = λ password hash. hash == password + 100;
  hash = λ password. some (password + 100);
  is_valid = λ password. true;
}

abbrev client : Client
client = record { ip = 7; user_agent = 8 }

abbrev new_password : Text
new_password = 6

abbrev guess : Time → Event
guess clock = attempt clock (b'A' ∷ b'@' ∷ b'b' ∷ []) 6

abbrev guesses : List Event
guesses =
    guess 11
    ∷ guess 12
    ∷ guess 13
    ∷ guess 14
    ∷ guess 15
    ∷ guess 16
    ∷ guess 17
    ∷ guess 18
    ∷ guess 19
    ∷ []

guesses_in_time : All (Within 11) guesses
guesses_in_time = ground arith

wrong≢ok : some wrong_password ≢ some login_ok
wrong≢ok e = cc

locked≢ok : some locked_out ≢ some login_ok
locked≢ok e = cc

none_succeeds : NoSuccess hashing.verify 1 guesses accounts
unfolding authenticate_password play outcome bytes_eq to_lower trim_space user_by_email
none_succeeds = (
  wrong≢ok,
  (
    wrong≢ok,
    (wrong≢ok, (wrong≢ok, (wrong≢ok, (wrong≢ok, (wrong≢ok, (wrong≢ok, (locked≢ok, tt))))))),
  ),
)

-- The ninth is not judged.
guessed : wrongs hashing.verify 1 guesses accounts ≡ 8
unfolding wrongs bytes_eq to_lower trim_space user_by_email
guessed = refl

wrongs_bounded_example :
    wrongs hashing.verify 1 guesses accounts
    ≤ max 1 (max_failed_logins - (throttle accounts 1).failed)
wrongs_bounded_example =
    wrongs_bounded hashing.verify 1 11 guesses accounts guesses_in_time none_succeeds

authenticate_password-login_ok_iff_example :
    ((authenticate_password hashing.verify 11 address 5 accounts).2 ≡ login_ok) ↔ (
      (u : User) × (user_by_email address accounts ≡ some u)
      × SignsIn hashing.verify 11 5 accounts u)
authenticate_password-login_ok_iff_example =
    authenticate_password-login_ok_iff hashing.verify 11 address 5 accounts

session_auth-let_in_iff_example :
    ((session_auth 11 client false (some 21) accounts).1 ≡ let_in alice 20)
    ↔ ((s : Session) × (session_by_hash 21 accounts ≡ some (s, alice)) × LetInBy 11 21 alice 20 s)
session_auth-let_in_iff_example = session_auth-let_in_iff 11 client 21 accounts alice 20

logout-refused_example :
    (session_auth 13 client false
      (some 21)
      (run_events hashing.verify (opened 22 12 1 23 999 0 0 ∷ []) (logout 11 (some 21) accounts))).1
    ≢ let_in alice 20
logout-refused_example =
    logout-refused hashing.verify 11 13 client 21 (opened 22 12 1 23 999 0 0 ∷ []) accounts alice 20
      (refl, tt)

bob_suspended : (set_user_status 11 9 Status.suspended accounts).0 ≡ accounts
unfolding set_user_status
bob_suspended = refl

let_in_still :
    (session_auth 12 client false (some 21) (set_user_status 11 9 Status.suspended accounts).0).1
    ≡ let_in alice 20
unfolding session_auth set_user_status session_by_hash is_active
let_in_still = refl

set_user_status-refused_example : alice.id ≢ 9
set_user_status-refused_example =
    set_user_status-refused 11 12 client 9 21 accounts alice 20 let_in_still

abbrev identity : UserIdentity
identity = record { issuer = 2; subject = 5; email = address; display_name = 0 }

abbrev joined : Accounts × User
joined = elim (resolve_user 30 11 identity (address ∷ []) accounts) [
  | ok r ↦ r
  | err e ↦ (accounts, alice)
]

joins : resolve_user 30 11 identity (address ∷ []) accounts ≡ ok (joined.0, joined.1)
unfolding resolve_user
joins = refl

resolve_user-authority_example :
    Resolved 30 identity (address ∷ []) accounts.users joined.0.users joined.1
    × (is_identity 2 5 joined.1 ≡ true)
resolve_user-authority_example =
    resolve_user-authority 30 11 identity (address ∷ []) accounts joined.0 joined.1 joins

resolve_user-Distinct_example : Distinct joined.0.users
resolve_user-Distinct_example =
    resolve_user-Distinct 30 11 identity (address ∷ []) accounts joined.0 joined.1 (tt, tt) joins

changes : (change_password hashing 31 11 client (some 32) 1 5 6 accounts).1 ≡ changed
unfolding change_password bytes_eq to_lower trim_space get_user user_by_email
changes = refl

change_password-Changed_example :
    (u : User) × (get_user 1 accounts ≡ some u)
    × Changed hashing
        (some 32)
        1
        6
        (change_password hashing 31 11 client (some 32) 1 5 6 accounts).0
    × ((authenticate_password hashing.verify 11 u.email 5 accounts).2 ≡ login_ok)
    × (true ≡ true)
    × (new_password ≢ 5)
change_password-Changed_example =
    change_password-Changed hashing 31 11 client (some 32) 1 5 6 accounts changes
