-- ===== src/Signin.antt =====
-- core/store/inmemory_users.go and core/store/inmemory_sessions.go: the accounts, their passwords and their
-- sessions. The maps of users and sessions are lists in some order, those of the password hashes and of the
-- failed sign-ins are functions. Addresses are ASCII bytes.
pub mod Passwords
pub mod Sessions
pub mod Handlers
pub mod Authority
pub mod Throttle
pub mod Lockout
pub mod Ended
pub mod Admitted
pub mod Changed
mod Examples
use certpilot.Prelude.{
  ℕ, ◌≡◌, Bool, true, false, not, ◌&&◌, ◌||◌, Option, none, some, List, [], ◌∷◌, ◌++◌, Text, Time,
  empty_text, ◌==◌, if◌then◌else◌, Result, ok, err,
}
use certpilot.Audit.Bytes.{Bytes, bytes_eq}
use certpilot.Text.{equal_fold, to_lower, trim_space}

pub data Role : Type 0 where
  viewer auditor operator admin : Role
  unknown : Text → Role

pub data Status : Type 0 where
  active suspended : Status
  unknown : Text → Status

pub data RoleSource : Type 0 where
  default bootstrap assigned : RoleSource

pub record User : Type 0 where
  pub id : Text
  pub issuer : Text
  pub subject : Text
  pub email : Bytes
  pub display_name : Text
  pub role : Role
  pub status : Status
  pub role_source : RoleSource
  pub must_change_password : Bool
  pub last_seen_at : Option Time
  pub created_at : Time
  pub updated_at : Time

pub record UserIdentity : Type 0 where
  pub issuer : Text
  pub subject : Text
  pub email : Bytes
  pub display_name : Text

pub record Session : Type 0 where
  pub id : Text
  pub user_id : Text
  pub token_hash : Text
  pub expires_at : Time
  pub revoked_at : Option Time
  pub last_seen_at : Option Time
  pub last_seen_ip : Text
  pub user_agent : Text
  pub created_at : Time

-- `loginState`: the throttle of one account.
pub record LoginState : Type 0 where
  pub failed : ℕ
  pub locked_until : Option Time

-- The part of the store that these operations read and write.
pub record Accounts : Type 0 where
  pub users : List User
  pub password_hashes : Text → Text
  pub login_failures : Text → Option LoginState
  pub sessions : List Session

pub data AccountError : Type 0 where
  no_identity : AccountError
  no_user : Text → AccountError
  no_hash : AccountError

abbrev pub no_bytes : Bytes → Bool
no_bytes [] = true
no_bytes (c ∷ cs) = false

pub is_active : User → Bool
is_active u = elim u.status [ Status.active ↦ true | _ ↦ false ]

pub role_rank : Role → ℕ
role_rank admin = 0
role_rank operator = 1
role_rank auditor = 2
role_rank _ = 3

-- The details that the provider owns.
refreshed : Time → UserIdentity → User → User
refreshed clock identity u = record u {
  email = if no_bytes identity.email then u.email else identity.email;
  display_name =
      if identity.display_name == empty_text then u.display_name else identity.display_name;
  updated_at = clock;
}

pub is_bootstrap : Bytes → List Bytes → Bool
is_bootstrap email [] = false
is_bootstrap email (candidate ∷ candidates) =
    equal_fold (trim_space candidate) (trim_space email) || is_bootstrap email candidates

pub named_admin : UserIdentity → List Bytes → Bool
unfolding is_bootstrap
named_admin identity admins = not (no_bytes identity.email) && is_bootstrap identity.email admins

new_user : Text → Time → UserIdentity → List Bytes → User
unfolding named_admin
new_user fresh clock identity admins = record {
  id = fresh;
  issuer = identity.issuer;
  subject = identity.subject;
  email = identity.email;
  display_name = identity.display_name;
  role = if named_admin identity admins then admin else viewer;
  status = Status.active;
  role_source = if named_admin identity admins then bootstrap else default;
  must_change_password = false;
  last_seen_at = some clock;
  created_at = clock;
  updated_at = clock;
}

-- The loop over the users, with what follows it.
pub resolve_in : Text → Time → UserIdentity → List Bytes → List User → List User × User
unfolding refreshed new_user
resolve_in fresh clock identity admins [] =
    let u = new_user fresh clock identity admins in (u ∷ [], u)
resolve_in fresh clock identity admins (u ∷ us) =
    let rest = resolve_in fresh clock identity admins us in
    if u.issuer == identity.issuer && u.subject == identity.subject
    then (refreshed clock identity u ∷ us, refreshed clock identity u)
    else (u ∷ rest.0, rest.1)

unfoldable pub resolve_user :
    Text → Time → UserIdentity → List Bytes → Accounts → Result AccountError (Accounts × User)
unfolding resolve_in
resolve_user fresh clock identity admins st =
    if identity.issuer == empty_text || identity.subject == empty_text
    then err no_identity
    else let done_in = resolve_in fresh clock identity admins st.users in
      ok (record st { users = done_in.0 }, done_in.1)

pub find_user : Text → List User → Option User
find_user id [] = none
find_user id (u ∷ us) = if u.id == id then some u else find_user id us

pub get_user : Text → Accounts → Option User
unfolding find_user
get_user id st = find_user id st.users

-- A write through the pointer that the map holds under a key.
pub update_user : Text → (User → User) → List User → List User
update_user id change [] = []
update_user id change (u ∷ us) = if u.id == id then change u ∷ us else u ∷ update_user id change us

pub set_user_role : Time → Text → Role → Accounts → Accounts × Option User
unfolding update_user get_user
set_user_role clock id role st =
    let after_it = record st {
      users =
          update_user id (λ u. record u { role = role; role_source = assigned; updated_at = clock })
            st.users;
    } in
    (after_it, get_user id after_it)

unfoldable pub set_user_status : Time → Text → Status → Accounts → Accounts × Option User
unfolding update_user get_user
set_user_status clock id status st =
    let after_it = record st {
      users = update_user id (λ u. record u { status = status; updated_at = clock }) st.users;
    } in
    (after_it, get_user id after_it)

pub touch_user : Text → Time → Accounts → Accounts
unfolding update_user
touch_user id seen_at st = record st {
  users = update_user id (λ u. record u { last_seen_at = some seen_at }) st.users;
}

-- `UserByEmail`: the first account with the address.
pub find_email : Bytes → List User → Option User
unfolding to_lower
find_email wanted [] = none
find_email wanted (u ∷ us) =
    if not (no_bytes u.email) && bytes_eq (to_lower u.email) wanted
    then some u
    else find_email wanted us

pub user_by_email : Bytes → Accounts → Option User
unfolding find_email
user_by_email email st = find_email (to_lower (trim_space email)) st.users
