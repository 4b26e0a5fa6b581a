-- ===== src/Signin/Sessions.antt =====
-- core/store/inmemory_sessions.go and core/store/models.go: the sessions of browsers.
use certpilot.Prelude.{
  ℕ, Bool, true, false, ◌&&◌, Option, none, some, List, [], ◌∷◌, ◌++◌, Text, Time, before,
  empty_text, ◌==◌, if◌then◌else◌, is_none, total,
}
use certpilot.Signin.{Accounts, Session, User, find_user}

unfoldable pub is_usable : Time → Session → Bool
is_usable clock s = is_none s.revoked_at && before clock s.expires_at

unfoldable pub new_session : Text → Time → Text → Text → Time → Text → Text → Session
new_session fresh clock user_id token_hash expires_at user_agent ip = record {
  id = fresh;
  user_id = user_id;
  token_hash = token_hash;
  expires_at = expires_at;
  revoked_at = none;
  last_seen_at = some clock;
  last_seen_ip = ip;
  user_agent = user_agent;
  created_at = clock;
}

unfoldable pub create_session :
    Text → Time → Text → Text → Time → Text → Text → Accounts → Accounts × Session
unfolding new_session
create_session fresh clock user_id token_hash expires_at user_agent ip st =
    let s = new_session fresh clock user_id token_hash expires_at user_agent ip in
    (record st { sessions = st.sessions ++ s ∷ [] }, s)

unfoldable pub with_user : Session → Option User → Option (Session × User)
with_user s none = none
with_user s (some u) = some (s, u)

-- The loop stops at the first session with the hash, whether or not its account exists.
unfoldable pub find_hash : Text → List User → List Session → Option (Session × User)
unfolding with_user
find_hash token_hash users [] = none
find_hash token_hash users (s ∷ ss) =
    if s.token_hash == token_hash
    then with_user s (find_user s.user_id users)
    else find_hash token_hash users ss

unfoldable pub session_by_hash : Text → Accounts → Option (Session × User)
unfolding find_hash
session_by_hash token_hash st = find_hash token_hash st.users st.sessions

unfoldable pub revoke_if : Bool → Time → Session → Session
revoke_if true clock s = if is_none s.revoked_at then record s { revoked_at = some clock } else s
revoke_if false clock s = s

unfoldable pub revoke_where : (Session → Bool) → Time → List Session → List Session
unfolding revoke_if
revoke_where hit clock [] = []
revoke_where hit clock (s ∷ ss) = revoke_if (hit s) clock s ∷ revoke_where hit clock ss

unfoldable pub revoke_session : Time → Text → Accounts → Accounts
unfolding revoke_where
revoke_session clock token_hash st = record st {
  sessions = revoke_where (λ s. s.token_hash == token_hash) clock st.sessions;
}

abbrev pub one_if : Bool → ℕ
one_if true = 1
one_if false = 0

-- The new store, and the number of sessions that were ended.
unfoldable pub revoke_sessions_for_user : Time → Text → Accounts → Accounts × ℕ
unfolding revoke_where
revoke_sessions_for_user clock user_id st = (
  record st { sessions = revoke_where (λ s. s.user_id == user_id) clock st.sessions },
  total (λ s. one_if (s.user_id == user_id && is_none s.revoked_at)) st.sessions,
)

unfoldable pub touch_in : Text → Time → Text → List Session → List Session
touch_in id seen_at ip [] = []
touch_in id seen_at ip (s ∷ ss) =
    if s.id == id
    then record s {
      last_seen_at = some seen_at;
      last_seen_ip = if ip == empty_text then s.last_seen_ip else ip;
    }
      ∷ ss
    else s ∷ touch_in id seen_at ip ss

unfoldable pub touch_session : Text → Time → Text → Accounts → Accounts
unfolding touch_in
touch_session id seen_at ip st = record st { sessions = touch_in id seen_at ip st.sessions }
