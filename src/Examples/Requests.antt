-- ===== src/Examples/Requests.antt =====
-- The theorems about the guards of the handlers, applied.
use open_cuttles.Base.{
  ltb, ◌+◌, Option, keep, List, length, ◌≤◌, [], ◌∷◌, true, false, none, some, arith,
}
use open_cuttles.Api.{Settings, Request, Front}
use open_cuttles.Api.Handlers.{require, handle_me, BootstrapRequest}
use open_cuttles.Api.Guarded.{require-Authorized, IsRequired}
use open_cuttles.Api.Limiter.{let_through-bounded, let_through, Visit, no_attempts}
use open_cuttles.Api.Claimed.{Claimed}
use open_cuttles.Auth.{Permission}
use open_cuttles.Examples.Login.{crypto, registry}
use open_cuttles.Examples.Accounts.{accounts}
use open_cuttles.Go.Strings.{codes}

abbrev settings : Settings
settings = record {
  service_token = codes "service";
  bootstrap_token = codes "first";
  dev_mode = false;
  trust_proxy = true;
  split_host_port = λ addr. none;
  crypto = crypto;
  registry = registry;
}

-- A browser of the operator alice, behind a proxy.
abbrev request : Request
request = record {
  authorization = [];
  mcp_token = [];
  forwarded_for = codes "1.2.3.4, 10.0.0.9";
  real_ip = [];
  remote_addr = codes "127.0.0.1:9";
  user_agent = "browser";
  path = "/api/v1/instances";
  request_id = "r1";
  cookie = some "secret";
}

abbrev front : Front
front = record {
  auth = record { tick = 0; tables = accounts };
  audits = [];
  attempts = no_attempts;
}

require-Authorized_example :
    IsRequired settings request front Permission.operate
      (λ p. handle_me (some p))
      (require settings Permission.operate (λ p. handle_me (some p)) request front)
require-Authorized_example =
    require-Authorized settings request front Permission.operate (λ p. handle_me (some p))

abbrev visits : List Visit
visits = (codes "login:a", 0) ∷ (codes "login:b", 5) ∷ (codes "login:a", 1000) ∷ []

let_through-bounded_example :
    length (keep (λ at. ltb 2000 (at + 300000)) (let_through (codes "login:a") visits no_attempts))
    ≤ 10
let_through-bounded_example =
    let_through-bounded 2000 (codes "login:a") visits
      (omega arith, (omega arith, (omega arith, tt)))

-- Before there is any user.
abbrev unclaimed : Front
unclaimed = record front {
  auth = record { tick = 0; tables = record { users = []; sessions = [] } };
}

abbrev claim : Option BootstrapRequest
claim = some (record {
  token = codes "first";
  username = "Root";
  display_name = "";
  password = codes "correct horse";
})
