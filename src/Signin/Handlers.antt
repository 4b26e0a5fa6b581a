-- ===== src/Signin/Handlers.antt =====
-- core/server/middleware/session.go and core/api/login.go: how a request is let in by its session, and what
-- signing in, signing out and a new password do to the accounts. The audit log, the cookies and the JSON are
-- left out: a response is its status. A session token's hash, which NewSessionToken makes, is an argument,
-- none where the random source fails.
use certpilot.Prelude.{
  ◌+◌, ◌*◌, Bool, true, false, not, Option, none, some, Text, Time, Duration, hour, empty_text,
  ◌==◌, if◌then◌else◌, Result, ok, err,
}
use certpilot.Audit.Bytes.{Bytes}
use certpilot.Signin.{AccountError, Accounts, Session, User, get_user, is_active}
use certpilot.Signin.Passwords.{
  LoginOutcome, authenticate_password, locked_out, login_ok, set_user_password,
}
use certpilot.Signin.Sessions.{
  create_session, is_usable, revoke_session, revoke_sessions_for_user, session_by_hash,
  touch_session,
}

abbrev pub session_lifetime : Duration
session_lifetime = 12 * hour

-- What SessionAuth does with a request: it passes it on as it came, lets it in as a user, or refuses it.
pub data Admission : Type 0 where
  passed_on : Admission
  let_in : User → Text → Admission
  not_recognised ended suspended : Admission

unfoldable pub admit : Time → Text → Option (Session × User) → Admission
unfolding is_usable
admit clock hash none = not_recognised
admit clock hash (some (s, u)) =
    if not (s.token_hash == hash)
    then not_recognised
    else if not (is_usable clock s)
    then ended
    else if not (is_active u)
    then suspended
    else let_in u s.id

pub record Client : Type 0 where
  pub ip : Text
  pub user_agent : Text

unfoldable pub touched : Time → Text → Accounts → Admission → Accounts
unfolding touch_session
touched clock ip st (let_in u session_id) = touch_session session_id clock ip st
touched clock ip st _ = st

-- SessionAuth: whether the request names another credential, and the hash of its session cookie.
unfoldable pub session_auth : Time → Client → Bool → Option Text → Accounts → Accounts × Admission
unfolding admit touched
session_auth clock client true cookie st = (st, passed_on)
session_auth clock client false none st = (st, passed_on)
session_auth clock client false (some hash) st =
    let admission = admit clock hash (session_by_hash hash st) in
    (touched clock client.ip st admission, admission)

pub data Response : Type 0 where
  signed_in : User → Response
  refused throttled broken : Response
  too_long : Response

unfoldable pub open_session :
    Text → Time → Client → Option Text → User → Accounts → Accounts × Response
open_session fresh clock client none u st = (st, broken)
open_session fresh clock client (some token_hash) u st = (
  (create_session fresh clock u.id token_hash (clock + session_lifetime) client.user_agent client.ip
      st).0,
  signed_in u,
)

unfoldable pub respond :
    Text → Time → Client → Option Text → Accounts × Option User × LoginOutcome → Accounts × Response
unfolding open_session
respond fresh clock client token (st, some u, login_ok) = open_session fresh clock client token u st
respond fresh clock client token (st, none, login_ok) = (st, broken)
respond fresh clock client token (st, u, locked_out) = (st, throttled)
respond fresh clock client token (st, u, _) = (st, refused)

-- Login, once the input has parsed.
unfoldable pub login :
    (Text → Text → Bool)
    → Text
    → Time
    → Client
    → Option Text
    → Bool
    → Bytes
    → Text
    → Accounts
    → Accounts × Response
unfolding respond authenticate_password
login verify fresh clock client token is_too_long email password st =
    if is_too_long
    then (st, too_long)
    else respond fresh clock client token (authenticate_password verify clock email password st)

-- Logout: the cookie's session, where there is a cookie.
unfoldable pub logout : Time → Option Text → Accounts → Accounts
unfolding revoke_session
logout clock none st = st
logout clock (some hash) st = revoke_session clock hash st

pub data Change : Type 0 where
  changed : Change
  no_account unreadable not_current invalid unchanged not_changed : Change

-- Another session for the caller: a failure leaves the caller without one.
unfoldable pub signed_in_again : Text → Time → Client → Option Text → Text → Accounts → Accounts
unfolding create_session
signed_in_again fresh clock client none user_id st = st
signed_in_again fresh clock client (some token_hash) user_id st =
    (create_session fresh clock user_id token_hash (clock + session_lifetime) client.user_agent
      client.ip st).0

-- What follows SetUserPassword.
unfoldable pub end_sessions :
    Text
    → Time
    → Client
    → Option Text
    → Text
    → Accounts
    → Result AccountError Accounts
    → Accounts × Change
unfolding signed_in_again revoke_sessions_for_user
end_sessions fresh clock client token user_id st (err e) = (st, not_changed)
end_sessions fresh clock client token user_id st (ok st2) = (
  signed_in_again fresh clock client token user_id (revoke_sessions_for_user clock user_id st2).0,
  changed,
)

-- pkg/passwords, whose hashing and whose rules for a new password are parameters.
pub record Hashing : Type 0 where
  pub verify : Text → Text → Bool
  pub hash : Text → Option Text
  pub is_valid : Text → Bool

unfoldable pub is_ok : LoginOutcome → Bool
is_ok login_ok = true
is_ok _ = false

-- What follows the check of the current password.
unfoldable pub change_checked :
    Hashing
    → Text
    → Time
    → Client
    → Option Text
    → Text
    → Text
    → Text
    → Accounts × Option User × LoginOutcome
    → Accounts × Change
unfolding end_sessions is_ok set_user_password
change_checked h fresh clock client token user_id current new (st, found, outcome) =
    if not (is_ok outcome)
    then (st, not_current)
    else if not (h.is_valid new)
    then (st, invalid)
    else if new == current
    then (st, unchanged)
    else end_sessions fresh clock client token user_id st
        (set_user_password h.hash user_id new false st)

-- What follows the read of the caller's account.
unfoldable pub change_for :
    Hashing
    → Text
    → Time
    → Client
    → Option Text
    → Text
    → Option User
    → Text
    → Text
    → Accounts
    → Accounts × Change
unfolding change_checked authenticate_password
change_for h fresh clock client token user_id none current new st = (st, unreadable)
change_for h fresh clock client token user_id (some u) current new st =
    change_checked h fresh clock client token user_id current new
      (authenticate_password h.verify clock u.email current st)

-- ChangePassword, once the input has parsed; the caller's account is empty where the request came with
-- another credential.
unfoldable pub change_password :
    Hashing → Text → Time → Client → Option Text → Text → Text → Text → Accounts → Accounts × Change
unfolding change_for
change_password h fresh clock client token user_id current new st =
    if user_id == empty_text
    then (st, no_account)
    else change_for h fresh clock client token user_id (get_user user_id st) current new st
