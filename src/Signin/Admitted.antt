-- ===== src/Signin/Admitted.antt =====
-- core/server/middleware/session.go and core/api/login.go: which requests a session lets in.
use certpilot.Prelude.{
  ◌≡◌, ◌≢◌, ◌↔◌, refl, sym, ap, subst, ◌∙◌, inl, inr, arith, Bool, Bool-cases, true, false, some,
  List, [], ◌∷◌, Text, Time, before, ◌==◌, Option-cases, All, is_none,
}
use certpilot.Signin.{
  Accounts, Session, Status, User, find_user, is_active, set_user_status, update_user,
}
use certpilot.Signin.Sessions.{is_usable, revoke_session, revoke_sessions_for_user, session_by_hash}
use certpilot.Signin.Handlers.{Client, admit, let_in, logout, session_auth}
use certpilot.Signin.Lockout.{Event}
use certpilot.Signin.Ended.{
  IsEnded, OpensNone, find_hash-All, find_user-id, revoke_where-hits, run_events,
  run_events-sessions,
}

-- The session that lets a request in, with the state it is in.
pub record LetInBy (clock : Time) (token_hash : Text) (u : User) (id : Text) (s : Session)
    : Type 0 where
  pub same_hash : s.token_hash ≡ token_hash
  pub unrevoked : is_none s.revoked_at ≡ true
  pub unexpired : before clock s.expires_at ≡ true
  pub is_current : is_active u ≡ true
  pub same_id : s.id ≡ id

let_in_injective : {u v : User} {i k : Text} → let_in u i ≡ let_in v k → (u ≡ v) × (i ≡ k)
let_in_injective h = (cc, cc)

admit-let_in :
    (clock : Time) (token_hash : Text) (s : Session) (v : User) {u : User} {id : Text}
    → admit clock token_hash (some (s, v)) ≡ let_in u id
    → (v ≡ u) × LetInBy clock token_hash u id s
unfolding admit is_usable
admit-let_in clock token_hash s v {u} {id} h =
    let same : let_in v s.id ≡ let_in u id = ground (arith, h) in
    let active_v : is_active v ≡ true = ground (arith, h) in
    (
      (let_in_injective same).0,
      record {
        same_hash = ground (arith, h);
        unrevoked = ground (arith, h);
        unexpired = ground (arith, h);
        is_current = subst (λ w. is_active w ≡ true) (let_in_injective same).0 active_v;
        same_id = (let_in_injective same).1;
      },
    )

admit-LetInBy :
    (clock : Time) (token_hash : Text) (s : Session) (u : User) (id : Text)
    → LetInBy clock token_hash u id s
    → admit clock token_hash (some (s, u)) ≡ let_in u id
unfolding admit is_usable
admit-LetInBy clock token_hash s u id r =
    ground (arith, r.same_hash, r.unrevoked, r.unexpired, r.is_current, r.same_id)

-- A request with a session cookie and no other credential is let in as a user exactly if the first session
-- with the cookie's hash belongs to that account, has not been revoked and has not expired at that
-- moment, and the account is active.
pub session_auth-let_in_iff :
    (clock : Time) (client : Client) (token_hash : Text) (st : Accounts) (u : User) (id : Text)
    → ((session_auth clock client false (some token_hash) st).1 ≡ let_in u id) ↔ (
        (s : Session) × (session_by_hash token_hash st ≡ some (s, u))
        × LetInBy clock token_hash u id s)
unfolding session_auth admit
session_auth-let_in_iff clock client token_hash st u id =
    elim (Option-cases (session_by_hash token_hash st)) [
      | inl e ↦ rw (e) (λ h. cc, λ h. cc)
      | inr ((s, v), e) ↦ rw (e) (
        λ h.
            let (same, by) = admit-let_in clock token_hash s v h in
            (s, ap (λ w. some (s, w)) same, by),
        λ (t, same, by).
            ap (admit clock token_hash) same ∙ admit-LetInBy clock token_hash t u id by,
      )
    ]

module _ (hit : Text → Text → Bool) where
  -- No ended session lets anybody in.
  IsEnded-refused :
      (clock : Time) (client : Client) (token_hash : Text) (st : Accounts) (u : User) (id : Text)
      → All (IsEnded hit) st.sessions
      → (session_auth clock client false (some token_hash) st).1 ≡ let_in u id
      → hit token_hash u.id ≡ false
  unfolding session_by_hash
  IsEnded-refused clock client token_hash st u id h e =
      let (s, found, by) = (session_auth-let_in_iff clock client token_hash st u id).0 e in
      let (is_ended, same, user) =
        find_hash-All (IsEnded hit) token_hash st.users st.sessions h found in
      let owner = find_user-id s.user_id st.users user in
      elim (Bool-cases (hit s.token_hash s.user_id)) [
        | inl e1 ↦ let revoked = is_ended e1 in absurd (ground (arith, revoked, by.unrevoked))
        | inr e1 ↦ ap (λ k. hit k u.id) (sym same) ∙ ap (hit s.token_hash) owner ∙ e1
      ]

-- After a logout, the session's hash lets nobody in at any later time, whatever happens to the accounts in
-- between, short of a new password and of another session with the same hash.
pub logout-refused :
    (verify : Text → Text → Bool) (clock later : Time) (client : Client) (token_hash : Text)
    (es : List Event) (st : Accounts) (u : User) (id : Text)
    → All (OpensNone (λ h k. h == token_hash)) es
    → (session_auth later client false
        (some token_hash)
        (run_events verify es (logout clock (some token_hash) st))).1
      ≢ let_in u id
unfolding logout revoke_session
logout-refused verify clock later client token_hash es st u id others e =
    let hit : Text → Text → Bool = λ h k. h == token_hash in
    let after_logout = revoke_session clock token_hash st in
    let at_end =
      run_events-sessions hit verify es after_logout others
        (revoke_where-hits hit clock st.sessions) in
    let missed =
      IsEnded-refused hit later client token_hash (run_events verify es after_logout) u id at_end
        e in
    ground (arith, missed)

-- After RevokeSessionsForUser no session, whatever its hash, lets that account in at any later time, whatever
-- happens to the accounts in between, short of a new password and of a new session of the account.
pub revoke_sessions_for_user-refused :
    (verify : Text → Text → Bool) (clock later : Time) (client : Client) (user_id token_hash : Text)
    (es : List Event) (st : Accounts) (u : User) (id : Text)
    → All (OpensNone (λ h k. k == user_id)) es
    → (session_auth later client false
        (some token_hash)
        (run_events verify es (revoke_sessions_for_user clock user_id st).0)).1
      ≡ let_in u id
    → u.id ≢ user_id
unfolding revoke_sessions_for_user
revoke_sessions_for_user-refused verify clock later client user_id token_hash es st u id others e
      same =
    let hit : Text → Text → Bool = λ h k. k == user_id in
    let after_it = (revoke_sessions_for_user clock user_id st).0 in
    let at_end =
      run_events-sessions hit verify es after_it others (revoke_where-hits hit clock st.sessions) in
    let missed =
      IsEnded-refused hit later client token_hash (run_events verify es after_it) u id at_end e in
    ground (arith, missed, same)

All-refl : (ss : List Session) → All (λ s. s ≡ s) ss
All-refl [] = tt
All-refl (s ∷ ss) = (refl, All-refl ss)

abbrev suspend : Time → User → User
suspend clock u = record u { status = Status.suspended; updated_at = clock }

-- A suspended account is not found active.
suspended_is_found :
    (clock : Time) (id : Text) (us : List User) {u : User}
    → find_user id (update_user id (suspend clock) us) ≡ some u
    → is_active u ≡ true
    → ⊥
unfolding update_user find_user is_active
suspended_is_found clock id [] h is_current = cc
suspended_is_found clock id (v ∷ us) {u} h is_current = elim (Bool-cases (v.id == id)) [
  | inl e ↦
      let same : suspend clock v ≡ u = some_injective (rw (e, e) at h) in
      absurd (true≢false (sym is_current ∙ ap is_active (sym same)))
  | inr e ↦ suspended_is_found clock id us (rw (e, e) at h) is_current
]
  where
    some_injective : {a b : User} → some a ≡ some b → a ≡ b
    some_injective p = cc

    true≢false : true ≢ false
    true≢false p = cc

-- A suspension takes effect with the next request: the account is let in by none of its sessions.
pub set_user_status-refused :
    (clock later : Time) (client : Client) (user_id token_hash : Text) (st : Accounts) (u : User)
    (id : Text)
    → (session_auth later client false
        (some token_hash)
        (set_user_status clock user_id Status.suspended st).0).1
      ≡ let_in u id
    → u.id ≢ user_id
unfolding set_user_status session_by_hash
set_user_status-refused clock later client user_id token_hash st u id e =
    let after_it = (set_user_status clock user_id Status.suspended st).0 in
    let (s, found, by) = (session_auth-let_in_iff later client token_hash after_it u id).0 e in
    let (t, same, user) =
      find_hash-All (λ s. s ≡ s) token_hash after_it.users st.sessions (All-refl st.sessions)
        found in
    λ suspended_here.
      suspended_is_found clock user_id st.users
        (subst (λ k. find_user k after_it.users ≡ some u)
          (sym (find_user-id s.user_id after_it.users user) ∙ suspended_here) user)
        by.is_current
