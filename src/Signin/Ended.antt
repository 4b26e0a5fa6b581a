-- ===== src/Signin/Ended.antt =====
-- core/store/inmemory_sessions.go and core/server/middleware/session.go: who is let in, and who no longer is.
use certpilot.Signin.Passwords.{authenticate_found, authenticate_password}
use certpilot.Prelude.{
  ◌≡◌, refl, sym, ap, subst, ◌∙◌, inl, inr, arith, Bool, Bool-cases, true, false, Option, none,
  some, List, [], ◌∷◌, Text, Time, ◌==◌, ==_iff, All, All-append, is_none, empty_text, ◌||◌,
}
use certpilot.Signin.{Accounts, Session, User, find_user, user_by_email, resolve_user}
use certpilot.Signin.Sessions.{find_hash, revoke_if, revoke_where, touch_in, with_user}
use certpilot.Signin.Lockout.{
  Event, attempt, opened, play, resolved, ended, all_ended, session_touched, resolved_or,
}

pub find_user-id : (id : Text) (us : List User) {u : User} → find_user id us ≡ some u → u.id ≡ id
unfolding find_user
find_user-id id [] h = cc
find_user-id id (v ∷ us) {u} h = elim (Bool-cases (v.id == id)) [
  | inl e ↦ ap (λ w. w.id) (sym (some_injective (rw (e) at h))) ∙ (==_iff v.id id).0 e
  | inr e ↦ find_user-id id us (rw (e) at h)
]
  where
    some_injective : {a b : User} → some a ≡ some b → a ≡ b
    some_injective p = cc

-- The sessions that are ended for good: a test on what never changes of a session.
abbrev pub IsEnded : (Text → Text → Bool) → Session → Type 0
IsEnded hit s = hit s.token_hash s.user_id ≡ true → is_none s.revoked_at ≡ false

-- What no event opens.
abbrev pub OpensNone : (Text → Text → Bool) → Event → Type 0
OpensNone hit (opened fresh clock user_id token_hash expires_at user_agent ip) =
    hit token_hash user_id ≡ false
OpensNone hit _ = Unit

pub run_events : (Text → Text → Bool) → List Event → Accounts → Accounts
unfolding play
run_events verify [] st = st
run_events verify (e ∷ es) st = run_events verify es (play verify e st)

module _ (hit : Text → Text → Bool) where
  revoke_if-IsEnded :
      (c : Bool) (clock : Time) (s : Session) → IsEnded hit s → IsEnded hit (revoke_if c clock s)
  unfolding revoke_if
  revoke_if-IsEnded false clock s h = h
  revoke_if-IsEnded true clock s h = elim (Bool-cases (is_none s.revoked_at)) [
    | inl e ↦ rw (e) (λ k. refl)
    | inr e ↦ rw (e) h
  ]

  revoke_where-IsEnded :
      (test : Session → Bool) (clock : Time) (ss : List Session)
      → All (IsEnded hit) ss
      → All (IsEnded hit) (revoke_where test clock ss)
  unfolding revoke_where
  revoke_where-IsEnded test clock [] h = tt
  revoke_where-IsEnded test clock (s ∷ ss) h =
      (revoke_if-IsEnded (test s) clock s h.0, revoke_where-IsEnded test clock ss h.1)

  touch_in-IsEnded :
      (id : Text) (seen_at : Time) (ip : Text) (ss : List Session)
      → All (IsEnded hit) ss
      → All (IsEnded hit) (touch_in id seen_at ip ss)
  unfolding touch_in
  touch_in-IsEnded id seen_at ip [] h = tt
  touch_in-IsEnded id seen_at ip (s ∷ ss) h = elim (Bool-cases (s.id == id)) [
    | inl e ↦ rw (e) (h.0, h.1)
    | inr e ↦ rw (e) (h.0, touch_in-IsEnded id seen_at ip ss h.1)
  ]

  attempt-sessions :
      (verify : Text → Text → Bool) (clock : Time) (found : Option User) (password : Text)
      (st : Accounts)
      → (authenticate_found verify clock found password st).0.sessions ≡ st.sessions
  unfolding authenticate_found
  attempt-sessions verify clock none password st = refl
  attempt-sessions verify clock (some u) password st = refl

  play-sessions :
      (verify : Text → Text → Bool) (e : Event) (st : Accounts)
      → OpensNone hit e
      → All (IsEnded hit) st.sessions
      → All (IsEnded hit) (play verify e st).sessions
  unfolding play authenticate_password resolve_user resolved_or
  play-sessions verify (attempt clock email password) st other h =
      subst (All (IsEnded hit))
        (sym (attempt-sessions verify clock (user_by_email email st) password st)) h
  play-sessions verify (resolved fresh clock identity admins) st other h =
      elim (Bool-cases (identity.issuer == empty_text || identity.subject == empty_text)) [
        | inl e ↦ rw (e) h
        | inr e ↦ rw (e) h
      ]
  play-sessions verify (opened fresh clock user_id token_hash expires_at user_agent ip) st other h =
      All-append (IsEnded hit) st.sessions _ h (λ k. ground (arith, k, other), tt)
  play-sessions verify (ended clock token_hash) st other h =
      revoke_where-IsEnded (λ s. s.token_hash == token_hash) clock st.sessions h
  play-sessions verify (all_ended clock user_id) st other h =
      revoke_where-IsEnded (λ s. s.user_id == user_id) clock st.sessions h
  play-sessions verify (session_touched id seen_at ip) st other h =
      touch_in-IsEnded id seen_at ip st.sessions h
  play-sessions verify _ st other h = h

  pub run_events-sessions :
      (verify : Text → Text → Bool) (es : List Event) (st : Accounts)
      → All (OpensNone hit) es
      → All (IsEnded hit) st.sessions
      → All (IsEnded hit) (run_events verify es st).sessions
  unfolding run_events
  run_events-sessions verify [] st other h = h
  run_events-sessions verify (e ∷ es) st other h =
      run_events-sessions verify es (play verify e st) other.1 (play-sessions verify e st other.0 h)

-- A revocation ends what it names.
pub revoke_where-hits :
    (hit : Text → Text → Bool) (clock : Time) (ss : List Session)
    → All (IsEnded hit) (revoke_where (λ s. hit s.token_hash s.user_id) clock ss)
unfolding revoke_where revoke_if
revoke_where-hits hit clock [] = tt
revoke_where-hits hit clock (s ∷ ss) = (ground arith, revoke_where-hits hit clock ss)

with_user-some :
    (s : Session) (found : Option User) {t : Session} {u : User}
    → with_user s found ≡ some (t, u)
    → (s ≡ t) × (found ≡ some u)
unfolding with_user
with_user-some s none h = cc
with_user-some s (some v) h = (cc, cc)

pub find_hash-All :
    (P : Session → Type 0) (token_hash : Text) (us : List User) (ss : List Session) {s : Session}
    {u : User}
    → All P ss
    → find_hash token_hash us ss ≡ some (s, u)
    → P s × (s.token_hash ≡ token_hash) × (find_user s.user_id us ≡ some u)
unfolding find_hash
find_hash-All P token_hash us [] h e = cc
find_hash-All P token_hash us (t ∷ ss) {s} {u} h e =
    elim (Bool-cases (t.token_hash == token_hash)) [
      | inl c ↦
          let (same, found) = with_user-some t (find_user t.user_id us) (rw (c) at e) in
          (
            subst P same h.0,
            ap (λ r. r.token_hash) (sym same) ∙ (==_iff t.token_hash token_hash).0 c,
            subst (λ r. find_user r.user_id us ≡ some u) same found,
          )
      | inr c ↦ find_hash-All P token_hash us ss h.1 (rw (c) at e)
    ]
