-- ===== src/Auth.antt =====
-- backend/internal/auth/service.go and store/auth.go: roles, sessions, and the authentication of a
-- request. SHA-256 in hexadecimal is a parameter; a database call fails where `fault` says so.
pub mod Permissions
pub mod Sessions
pub mod Abstract
pub mod Accounts
pub mod Passwords
pub mod Login
use open_cuttles.Go.Times.{text_order}
use open_cuttles.Base.{
  ltb, not, str_eq, leb, String, List, Bool, Option, ℕ, ◌+◌, ◌-◌, ◌*◌, ◌≡◌, ◌≢◌, ◌≤◌, ◌<◌, ◌&&◌,
  ◌||◌, ◌⊎◌, ◌∙◌, inl, inr, [], ◌∷◌, ◌++◌, if◌then◌else◌, ◌==◌, zero, suc, true, false, none, some,
  refl, sym, ap, arith,
}
use open_cuttles.Go.{no_rows, Result, message, Error, ◌>>=◌, ◌>>◌, ok, err}

pub data Role : Type 0 where
  admin operator : Role
  other : String → Role

pub data Permission : Type 0 where
  admin operate open_console control test view : Permission

pub record User : Type 0 where
  pub id : String
  pub username : String
  pub display_name : String
  pub role : Role
  pub password_hash : List ℕ
  pub disabled : Bool

pub record UserSession : Type 0 where
  pub id : String
  pub user_id : String
  pub token_hash : String
  pub expires_at : ℕ

pub record Principal : Type 0 where
  pub user_id : String
  pub username : String
  pub display_name : String
  pub role : Role
  pub permissions : List Permission

pub record AuthTables : Type 0 where
  pub users : List User
  pub sessions : List UserSession

unfoldable pub permissions_for_role : Role → List Permission
permissions_for_role Role.admin =
    Permission.admin ∷ Permission.operate ∷ Permission.open_console ∷ Permission.control
    ∷ Permission.test ∷ Permission.view ∷ []
permissions_for_role Role.operator =
    Permission.operate ∷ Permission.open_console ∷ Permission.control ∷ Permission.test
    ∷ Permission.view ∷ []
permissions_for_role (Role.other text) = Permission.view ∷ []

unfoldable pub principal_for_user : User → Principal
unfolding permissions_for_role
principal_for_user u = record {
  user_id = u.id;
  username = u.username;
  display_name = u.display_name;
  role = u.role;
  permissions = permissions_for_role u.role;
}

unfoldable pub same_permission : Permission → Permission → Bool
same_permission Permission.admin Permission.admin = true
same_permission Permission.operate Permission.operate = true
same_permission Permission.open_console Permission.open_console = true
same_permission Permission.control Permission.control = true
same_permission Permission.test Permission.test = true
same_permission Permission.view Permission.view = true
same_permission _ _ = false

unfoldable pub any_grants : List Permission → Permission → Bool
unfolding same_permission
any_grants [] p = false
any_grants (c ∷ rest) p =
    (same_permission c p || same_permission c Permission.admin) || any_grants rest p

unfoldable pub has_permission : Principal → Permission → Bool
unfolding any_grants
has_permission principal p = any_grants principal.permissions p

-- The join of one session with the users, where the user is enabled.
unfoldable pub joined : UserSession → List User → Option User
joined s [] = none
joined s (u ∷ rest) = if str_eq u.id s.user_id && not u.disabled then some u else joined s rest

unfoldable pub first_user :
    UserSession → Option User → Result (UserSession × User) → Result (UserSession × User)
first_user s (some u) later = ok (s, u)
first_user s none later = later

unfoldable pub query_session :
    String → ℕ → List User → List UserSession → Result (UserSession × User)
unfolding joined first_user
query_session hash now users [] = err no_rows
query_session hash now users (s ∷ rest) =
    let later = query_session hash now users rest in
    if str_eq s.token_hash hash && ltb (text_order now) (text_order s.expires_at)
    then first_user s (joined s users) later
    else later

unfoldable pub get_session_user :
    Option Error → AuthTables → String → ℕ → Result (UserSession × User)
unfolding query_session
get_session_user (some e) t hash now = err e
get_session_user none t hash now = query_session hash now t.users t.sessions

abbrev pub unauthorized : Error
unauthorized = message "unauthorized"

unfoldable pub accept : String → Result (UserSession × User) → Result (Principal × String)
unfolding principal_for_user
accept token (err e) = err unauthorized
accept token (ok (s, u)) = ok (principal_for_user u, token)

-- AuthenticateRequest; the cookie is none where the request has no session cookie.
unfoldable pub authenticate_request :
    (String → String) → Option Error → AuthTables → ℕ → Option String → Result (Principal × String)
unfolding accept get_session_user
authenticate_request token_hash fault t now none = err unauthorized
authenticate_request token_hash fault t now (some token) =
    if str_eq token ""
    then err unauthorized
    else accept token (get_session_user fault t (token_hash token) now)

unfoldable pub create_session : String → String → String → ℕ → AuthTables → AuthTables
create_session id user_id hash expires_at t = record t {
  sessions =
      record { id = id; user_id = user_id; token_hash = hash; expires_at = expires_at }
      ∷ t.sessions;
}

unfoldable pub without_hash : String → List UserSession → List UserSession
without_hash hash [] = []
without_hash hash (s ∷ rest) =
    if str_eq s.token_hash hash then without_hash hash rest else s ∷ without_hash hash rest

unfoldable pub delete_session : String → AuthTables → AuthTables
unfolding without_hash
delete_session hash t = record t { sessions = without_hash hash t.sessions }

unfoldable pub logout : (String → String) → String → AuthTables → AuthTables
unfolding delete_session
logout token_hash token t = if str_eq token "" then t else delete_session (token_hash token) t

unfoldable pub live_sessions : ℕ → List UserSession → List UserSession
live_sessions now [] = []
live_sessions now (s ∷ rest) =
    if leb (text_order s.expires_at) (text_order now)
    then live_sessions now rest
    else s ∷ live_sessions now rest

unfoldable pub prune_expired_sessions : ℕ → AuthTables → AuthTables
unfolding live_sessions
prune_expired_sessions now t = record t { sessions = live_sessions now t.sessions }
