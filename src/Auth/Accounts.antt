-- ===== src/Auth/Accounts.antt =====
-- backend/internal/auth/service.go and store/auth.go: the first administrator, logins and stored
-- passwords. Bytes and encoded passwords are lists of numbers. Cookies and audit events are left
-- out.
use open_cuttles.Base.{
  ltb, not, str_eq, Bool, Option, length, List, ℕ, String, ◌+◌, ◌||◌, [], ◌∷◌, ◌++◌, if◌then◌else◌,
  ◌==◌, false, none, some,
}
use open_cuttles.Go.{
  message, is_ok, raise, attempt, Error, no_rows, pure, Result, Exec, ◌>>=◌, ◌>>◌, ok, err,
}
use open_cuttles.Go.Strings.{lower_case, trim_space, codes}
use open_cuttles.Go.Text.{same_text, Text, split_by}
use open_cuttles.Base.Int.{pos, ℤ}
use open_cuttles.Auth.{
  AuthTables, User, Role, Principal, principal_for_user, create_session, unauthorized,
}

-- What is computed by cryptography and encodings: base64 without padding, SHA-256 in hexadecimal,
-- the verb %d of fmt.Sscanf, and the URL-safe base64 of a token. `pbkdf2` is pbkdf2Key, which is
-- taken as a whole.
pub record Crypto : Type 0 where
  pub encode : Text → Text
  pub decode : Text → Result Text
  pub pbkdf2 : Text → Text → ℤ → ℕ → Text
  pub token_hash : String → String
  pub scan_int : Text → Option ℤ
  pub url_encode : Text → String

-- What the database, the clock and crypto/rand answer at each tick.
pub record Registry : Type 0 where
  pub fault : ℕ → Option Error
  pub new_id : ℕ → String
  pub random_bytes : ℕ → ℕ → Result Text
  pub clock : ℕ → ℕ

pub record AuthWorld : Type 0 where
  pub tick : ℕ
  pub tables : AuthTables

unfoldable pub store_call :
    {A : Type 0} → Registry → (AuthTables → A × AuthTables) → Exec AuthWorld A
store_call g body w =
    let next = w.tick + 1 in
    elim (g.fault w.tick) [
      | some e ↦ (err e, record w { tick = next })
      | none ↦ let (a, t) = body w.tables in (ok a, record { tick = next; tables = t })
    ]

unfoldable pub user_count : Registry → Exec AuthWorld ℕ
unfolding store_call
user_count g = store_call g (λ t. (length t.users, t))

abbrev pub new_user : String → String → String → Role → Text → User
new_user id username display role hash = record {
  id = id;
  username = username;
  display_name = display;
  role = role;
  password_hash = hash;
  disabled = false;
}

unfoldable pub user_named : String → List User → Result User
user_named name [] = err no_rows
user_named name (u ∷ rest) = if str_eq u.username name then ok u else user_named name rest

unfoldable pub flatten_result : {A : Type 0} → Exec AuthWorld (Result A) → Exec AuthWorld A
flatten_result m = do r ← m; λ w. (r, w)

-- The column username is UNIQUE.
unfoldable pub insert_user : User → AuthTables → Result User × AuthTables
unfolding user_named
insert_user u t =
    if is_ok (user_named u.username t.users)
    then (err (message "UNIQUE constraint failed: users.username"), t)
    else (ok u, record t { users = t.users ++ u ∷ [] })

unfoldable pub create_user : Registry → String → String → Role → Text → Exec AuthWorld User
unfolding flatten_result store_call insert_user
create_user g username display role hash w =
    let u = new_user (g.new_id w.tick) username display role hash in
    flatten_result (store_call g (insert_user u)) w

unfoldable pub get_user_by_username : Registry → String → Exec AuthWorld User
unfolding flatten_result store_call user_named
get_user_by_username g name = flatten_result (store_call g (λ t. (user_named name t.users, t)))

unfoldable pub store_session : Registry → String → String → ℕ → Exec AuthWorld Unit
unfolding store_call create_session
store_session g user_id hash expires w =
    store_call g (λ t. (tt, create_session (g.new_id w.tick) user_id hash expires t)) w

abbrev pub iterations : ℤ
iterations = pos 210000

-- rand.Read
unfoldable pub draw : Registry → ℕ → Exec AuthWorld Text
draw g size w = (g.random_bytes w.tick size, record w { tick = w.tick + 1 })

unfoldable pub encoded_password : Crypto → Text → Text → Text
unfolding codes
encoded_password c salt key =
    codes "pbkdf2-sha256" ++ 36 ∷ (codes "210000" ++ 36 ∷ (c.encode salt ++ 36 ∷ c.encode key))

unfoldable pub hash_password : Crypto → Registry → Text → Exec AuthWorld Text
unfolding draw encoded_password
hash_password c g password = do
  salt ← draw g 16
  pure (encoded_password c salt (c.pbkdf2 password salt iterations 32))

abbrev pub verify_key : Crypto → Text → Option ℤ → Result Text → Result Text → Bool
verify_key c password (some n) (ok salt) (ok expected) =
    same_text (c.pbkdf2 password salt n (length expected)) expected
verify_key c password _ _ _ = false

abbrev pub verify_parts : Crypto → Text → List Text → Bool
verify_parts c password (scheme ∷ count ∷ salt ∷ key ∷ []) =
    if same_text scheme (codes "pbkdf2-sha256")
    then verify_key c password (c.scan_int count) (c.decode salt) (c.decode key)
    else false
verify_parts c password _ = false

unfoldable pub verify_password : Crypto → Text → Text → Bool
unfolding split_by
verify_password c password encoded = verify_parts c password (split_by (λ d. d == 36) encoded)

unfoldable pub normalize_username : String → String
unfolding lower_case trim_space
normalize_username name = lower_case (trim_space name)

unfoldable pub enter_admin : Crypto → Registry → String → String → Text → Exec AuthWorld Principal
unfolding hash_password create_user principal_for_user trim_space
enter_admin c g name display password = do
  hash ← hash_password c g password
  u ←
      create_user g name (if str_eq (trim_space display) "" then name else trim_space display)
        Role.admin hash
  pure (principal_for_user u)

unfoldable pub enter_first :
    Crypto → Registry → String → String → Text → ℕ → Exec AuthWorld Principal
unfolding enter_admin
enter_first c g name display password count =
    if not (count == 0)
    then raise (message "admin user already exists")
    else if str_eq name "" || ltb (length password) 12
    then raise (message "username and a 12 character password are required")
    else enter_admin c g name display password

-- BootstrapAdmin
unfoldable pub bootstrap_admin :
    Crypto → Registry → String → String → Text → Exec AuthWorld Principal
unfolding user_count normalize_username enter_first
bootstrap_admin c g username display password = do
  count ← user_count g
  enter_first c g (normalize_username username) display password count

-- 12 hours, in milliseconds
abbrev pub session_duration : ℕ
session_duration = 43200000

-- The session of a user whose password is right, and the token for it.
unfoldable pub open_session : Crypto → Registry → User → Exec AuthWorld (String × Principal × ℕ)
unfolding draw store_session principal_for_user
open_session c g u = do
  bytes ← draw g 32
  λ w.
      let expires = g.clock w.tick + session_duration in
      (store_session g u.id (c.token_hash (c.url_encode bytes)) expires
          >> pure (c.url_encode bytes, principal_for_user u, expires))
        w

unfoldable pub check_login :
    Crypto → Registry → Text → Result User → Exec AuthWorld (String × Principal × ℕ)
unfolding verify_password open_session
check_login c g password (err e) = raise unauthorized
check_login c g password (ok u) =
    if u.disabled || not (verify_password c password u.password_hash)
    then raise unauthorized
    else open_session c g u

-- Login
unfoldable pub login : Crypto → Registry → String → Text → Exec AuthWorld (String × Principal × ℕ)
unfolding get_user_by_username normalize_username check_login
login c g username password = do
  found ← attempt (get_user_by_username g (normalize_username username))
  check_login c g password found
