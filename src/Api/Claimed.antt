-- ===== src/Api/Claimed.antt =====
-- Who may enter the first administrator.
use open_cuttles.Base.{keep, Option, length, ◌≡◌, ◌≢◌, ◌<◌, ◌⊎◌, [], ◌++◌, true, some}
use open_cuttles.Api.{is_recent, Settings, Request, Front, client_ip}
use open_cuttles.Api.Handlers.{BootstrapRequest}
use open_cuttles.Go.Text.{Text}
use open_cuttles.Go.Strings.{codes}

-- The token is the one that is configured; none is configured only in development mode.
abbrev pub IsInvited : Settings → Text → Type 0
IsInvited c token =
    ((c.bootstrap_token ≢ []) × (token ≡ c.bootstrap_token))
    ⊎ ((c.bootstrap_token ≡ []) × (c.dev_mode ≡ true))

-- Fewer than ten attempts of the client were let through in the last five minutes.
abbrev pub IsUnhurried : Settings → Request → Front → Type 0
IsUnhurried c r w =
    length (
      keep (is_recent (c.registry.clock w.auth.tick))
        (w.attempts (codes "bootstrap:" ++ client_ip c r)))
    < 10

-- What holds where the handler may enter an administrator.
pub record Claimed (c : Settings) (r : Request) (payload : Option BootstrapRequest) (w : Front)
    : Type 0 where
  pub body : BootstrapRequest
  pub is_read : payload ≡ some body
  pub is_invited : IsInvited c body.token
  pub is_first : length w.auth.tables.users ≡ 0
  pub is_unhurried : IsUnhurried c r w
