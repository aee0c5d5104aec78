-- ===== src/Api/Handlers.antt =====
-- backend/internal/api/server.go: require, mcpAuth and serviceTokenOnly, which guard the other
-- handlers, and the handlers of the first administrator, of login and of logout.
use open_cuttles.Base.{ℕ, String, Option, if◌then◌else◌, none, some}
use open_cuttles.Go.{ok, err, error_text, Result}
use open_cuttles.Api.{
  Settings, Request, Front, Response, Handler, authenticate, audit, has_service_token, allow_client,
}
use open_cuttles.Auth.{Principal, Permission, has_permission}
use open_cuttles.Auth.Accounts.{AuthWorld, login, bootstrap_admin}
use open_cuttles.Go.Text.{Text, same_text, is_empty}

-- A permission as it is written.
unfoldable pub permission_text : Permission → String
permission_text Permission.admin = "admin"
permission_text Permission.operate = "operate"
permission_text Permission.open_console = "console"
permission_text Permission.control = "control"
permission_text Permission.test = "test"
permission_text Permission.view = "view"

-- What require does once it knows who asks; a denial is audited.
unfoldable pub admit :
    Settings → Permission → (Principal → Handler) → Request → Result (Principal × String) → Handler
unfolding has_permission audit permission_text
admit c p next r (err e) w = (Response.refused 401 "unauthorized", w)
admit c p next r (ok (who, token)) w = if has_permission who p then next who w else (
  Response.refused 403 "forbidden",
  audit c r who.user_id who.username "authorize" "api" r.path "denied" (permission_text p) w,
)

unfoldable pub require : Settings → Permission → (Principal → Handler) → Request → Handler
unfolding authenticate admit
require c p next r w = let (who, w') = authenticate c r w in admit c p next r who w'

abbrev pub admit_controller : (Principal → Handler) → Result (Principal × String) → Handler
admit_controller next (err e) w = (Response.refused 401 "unauthorized", w)
admit_controller next (ok (who, token)) w =
    if has_permission who Permission.control
    then next who w
    else (Response.refused 401 "unauthorized", w)

-- The handler is told the principal where there is one.
unfoldable pub mcp_auth : Settings → (Option Principal → Handler) → Request → Handler
unfolding has_service_token authenticate has_permission
mcp_auth c next r w =
    if has_service_token c r
    then next none w
    else (let (who, w') = authenticate c r w in admit_controller (λ p. next (some p)) who w')

unfoldable pub service_token_only : Settings → Handler → Request → Handler
unfolding has_service_token
service_token_only c next r w =
    if has_service_token c r then next w else (Response.refused 401 "service token required", w)

-- validateBootstrapToken: the error, if there is one.
unfoldable pub bootstrap_error : Settings → Text → Option String
unfolding same_text
bootstrap_error c token =
    if is_empty c.bootstrap_token
    then if c.dev_mode then none else some "bootstrap token is not configured"
    else if same_text token c.bootstrap_token
    then none
    else some "invalid bootstrap token"

abbrev pub in_auth : {A : Type 0} → (AuthWorld → Result A × AuthWorld) → Front → Result A × Front
in_auth m w = let (r, a) = m w.auth in (r, record w { auth = a })

-- The payload of a bootstrap request; the JSON decoder gives none where it cannot be read.
pub record BootstrapRequest : Type 0 where
  pub token : Text
  pub username : String
  pub display_name : String
  pub password : Text

unfoldable pub created : Settings → Request → Result Principal → Handler
unfolding audit error_text
created c r (err e) w = (Response.refused 400 (error_text e), w)
created c r (ok p) w = (
  Response.answered 201 (some p) none,
  audit c r p.user_id p.username "bootstrap_admin" "user" p.user_id "succeeded"
      "local admin created" w,
)

unfoldable pub bootstrap_with : Settings → Request → BootstrapRequest → Option String → Handler
unfolding bootstrap_admin created
bootstrap_with c r body (some text) w = (Response.refused 403 text, w)
bootstrap_with c r body none w =
    let (who, w') =
      in_auth (bootstrap_admin c.crypto c.registry body.username body.display_name body.password)
        w in
    created c r who w'

unfoldable pub read_bootstrap : Settings → Request → Option BootstrapRequest → Handler
unfolding bootstrap_with bootstrap_error
read_bootstrap c r none w = (Response.refused 400 "invalid bootstrap payload", w)
read_bootstrap c r (some body) w = bootstrap_with c r body (bootstrap_error c body.token) w

-- bootstrapAdmin
unfoldable pub handle_bootstrap : Settings → Request → Option BootstrapRequest → Handler
unfolding allow_client read_bootstrap
handle_bootstrap c r payload w =
    let (granted, w') = allow_client c "bootstrap:" r w in
    if granted
    then read_bootstrap c r payload w'
    else (Response.refused 429 "too many bootstrap attempts", w')

unfoldable pub logged_in : Settings → Request → String → Result (String × Principal × ℕ) → Handler
unfolding audit
logged_in c r username (err e) w = (
  Response.refused 401 "invalid credentials",
  audit c r "" username "login" "session" "" "failed" "invalid credentials" w,
)
logged_in c r username (ok (token, p, expires)) w = (
  Response.answered 200 (some p) (some token),
  audit c r p.user_id p.username "login" "session" "" "succeeded" "session created" w,
)

unfoldable pub read_login : Settings → Request → Option (String × Text) → Handler
unfolding login logged_in
read_login c r none w = (Response.refused 400 "invalid login payload", w)
read_login c r (some (username, password)) w =
    let (who, w') = in_auth (login c.crypto c.registry username password) w in
    logged_in c r username who w'

-- login
unfoldable pub handle_login : Settings → Request → Option (String × Text) → Handler
unfolding allow_client read_login
handle_login c r payload w =
    let (granted, w') = allow_client c "login:" r w in
    if granted
    then read_login c r payload w'
    else (Response.refused 429 "too many login attempts", w')

-- me
unfoldable pub handle_me : Option Principal → Handler
handle_me none w = (Response.refused 401 "unauthorized", w)
handle_me (some p) w = (Response.answered 200 (some p) none, w)
