-- ===== src/Api.antt =====
-- backend/internal/api/server.go: what stands between a request and its handler. This file has the
-- request, the state that the server keeps, the limiter of attempts, and the audit log. The headers
-- are texts; net.SplitHostPort and the environment are parameters.
pub mod Handlers
pub mod Guarded
pub mod Limiter
pub mod Claimed
use open_cuttles.Base.{
  length, leb, ltb, keep, String, List, Bool, ℕ, Option, not, ◌+◌, ◌-◌, ◌*◌, ◌≡◌, ◌≢◌, ◌≤◌, ◌<◌,
  ◌&&◌, ◌||◌, ◌⊎◌, ◌∙◌, inl, inr, [], ◌∷◌, ◌++◌, if◌then◌else◌, ◌==◌, zero, suc, true, false, none,
  some, refl, sym, ap, arith,
}
use open_cuttles.Go.{Error, Result, ◌>>=◌, ◌>>◌, ok, err}
use open_cuttles.Go.Text.{Text, same_text, trim, trim_prefix, is_empty, split_by}
use open_cuttles.Go.Strings.{codes, is_prefix}
use open_cuttles.Auth.{Principal, Permission, authenticate_request}
use open_cuttles.Auth.Accounts.{Crypto, Registry, AuthWorld}

-- The parts of a request that are read here; `path` is its path and `request_id` the id that the
-- middleware gave it.
pub record Request : Type 0 where
  pub authorization : Text
  pub mcp_token : Text
  pub forwarded_for : Text
  pub real_ip : Text
  pub remote_addr : Text
  pub user_agent : String
  pub path : String
  pub request_id : String
  pub cookie : Option String

pub record AuditEvent : Type 0 where
  pub id : String
  pub actor_id : String
  pub actor_name : String
  pub action : String
  pub resource : String
  pub resource_id : String
  pub outcome : String
  pub message : String
  pub source_ip : Text
  pub user_agent : String
  pub request_id : String
  pub created_at : ℕ

abbrev pub Attempts : Type 0
Attempts = Text → List ℕ

-- The users and sessions, the audit log, and the attempts that the limiter remembers.
pub record Front : Type 0 where
  pub auth : AuthWorld
  pub audits : List AuditEvent
  pub attempts : Attempts

-- OPENCUTTLES_MCP_TOKEN, _BOOTSTRAP_TOKEN, _DEV_MODE and _TRUST_PROXY_HEADERS, and what the server
-- calls.
pub record Settings : Type 0 where
  pub service_token : Text
  pub bootstrap_token : Text
  pub dev_mode : Bool
  pub trust_proxy : Bool
  pub split_host_port : Text → Option Text
  pub crypto : Crypto
  pub registry : Registry

-- What a handler writes: an error, or a status with the principal it is about, if any, and the
-- session cookie that it sets, if any.
pub data Response : Type 0 where
  refused : ℕ → String → Response
  answered : ℕ → Option Principal → Option String → Response

abbrev pub Handler : Type 0
Handler = Front → Response × Front

-- An attempt in the five minutes before `now`.
unfoldable pub is_recent : ℕ → ℕ → Bool
is_recent now attempt = ltb now (attempt + 300000)

unfoldable pub put_attempts : Text → List ℕ → Attempts → Attempts
unfolding same_text
put_attempts key times attempts k = if same_text k key then times else attempts k

-- rateLimiter.allow
unfoldable pub allow : ℕ → Text → Attempts → Bool × Attempts
unfolding is_recent put_attempts
allow now key attempts =
    let filtered = keep (is_recent now) (attempts key) in
    if leb 10 (length filtered)
    then (false, put_attempts key filtered attempts)
    else (true, put_attempts key (filtered ++ now ∷ []) attempts)

abbrev pub or_whole : Text → Option Text → Text
or_whole addr (some host) = host
or_whole addr none = addr

unfoldable pub strip_port : Settings → Text → Text
strip_port c addr = or_whole addr (c.split_host_port addr)

unfoldable pub last_part : List Text → Text
last_part [] = []
last_part (s ∷ []) = s
last_part (s ∷ t ∷ rest) = last_part (t ∷ rest)

-- The address that our own proxy saw is the last of the header.
unfoldable pub last_hop : Text → Text
unfolding split_by last_part trim
last_hop header = trim (last_part (split_by (λ c. c == b',') header))

unfoldable pub client_ip : Settings → Request → Text
unfolding last_hop strip_port trim
client_ip c r =
    let direct = strip_port c r.remote_addr in
    let by_real_ip = if is_empty (trim r.real_ip) then direct else strip_port c (trim r.real_ip) in
    let hop = last_hop r.forwarded_for in
    if not c.trust_proxy
    then direct
    else if is_empty r.forwarded_for
    then by_real_ip
    else if is_empty hop
    then by_real_ip
    else strip_port c hop

-- The limiter asked about a kind of attempt by this client.
unfoldable pub allow_client : Settings → String → Request → Front → Bool × Front
unfolding client_ip allow codes
allow_client c kind r w =
    let (granted, attempts) =
      allow (c.registry.clock w.auth.tick) (codes kind ++ client_ip c r) w.attempts in
    (granted, record w { attempts = attempts })

abbrev pub write_audit : Option Error → AuditEvent → Front → Front
write_audit (some e) event w = record w { auth = record w.auth { tick = w.auth.tick + 1 } }
write_audit none event w = record w {
  auth = record w.auth { tick = w.auth.tick + 1 };
  audits = w.audits ++ event ∷ [];
}

-- An audit event that cannot be written is only logged.
unfoldable pub audit :
    Settings
    → Request
    → String
    → String
    → String
    → String
    → String
    → String
    → String
    → Front
    → Front
unfolding client_ip
audit c r actor_id actor_name action resource resource_id outcome text w =
    write_audit (c.registry.fault w.auth.tick)
      (record {
        id = c.registry.new_id w.auth.tick;
        actor_id = actor_id;
        actor_name = actor_name;
        action = action;
        resource = resource;
        resource_id = resource_id;
        outcome = outcome;
        message = text;
        source_ip = client_ip c r;
        user_agent = r.user_agent;
        request_id = r.request_id;
        created_at = c.registry.clock w.auth.tick;
      })
      w

unfoldable pub authenticate : Settings → Request → Front → Result (Principal × String) × Front
unfolding authenticate_request
authenticate c r w = (
  authenticate_request c.crypto.token_hash (c.registry.fault w.auth.tick) w.auth.tables
      (c.registry.clock w.auth.tick) r.cookie,
  record w { auth = record w.auth { tick = w.auth.tick + 1 } },
)

-- mcpTokenFromRequest
unfoldable pub mcp_token_of : Request → Text
unfolding is_prefix codes trim trim_prefix
mcp_token_of r =
    if is_prefix (codes "Bearer ") r.authorization
    then trim (trim_prefix (codes "Bearer ") r.authorization)
    else trim r.mcp_token

-- The request carries the service token, which is configured.
unfoldable pub has_service_token : Settings → Request → Bool
unfolding mcp_token_of same_text
has_service_token c r =
    not (is_empty c.service_token)
    && not (is_empty (mcp_token_of r))
    && same_text (mcp_token_of r) c.service_token
