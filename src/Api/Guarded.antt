-- ===== src/Api/Guarded.antt =====
-- Whom the guards of the handlers let through.
use open_cuttles.Base.{
  Bool-cases, String, ℕ, Option, ◌+◌, ◌≡◌, ◌≢◌, ◌⊎◌, ◌∙◌, inl, inr, true, none, some, refl, sym, ap,
}
use open_cuttles.Go.{Error, Result, ok, err}
use open_cuttles.Api.{
  Settings, Request, Front, Response, Handler, authenticate, audit, has_service_token, write_audit,
}
use open_cuttles.Api.Handlers.{admit, require}
use open_cuttles.Auth.{
  Principal, Permission, User, UserSession, Role, has_permission, principal_for_user,
}
use open_cuttles.Auth.Sessions.{Serves, authenticate_request-Serves}
use open_cuttles.Auth.Permissions.{has_permission-role}

-- The database was asked once.
abbrev pub asked : Front → Front
asked w = record w { auth = record w.auth { tick = w.auth.tick + 1 } }

-- The request carries the token of a session of an enabled user, whose role has the permission.
pub record Authorized (c : Settings) (p : Permission) (r : Request) (w : Front) (who : Principal)
    : Type 0 where
  pub token : String
  pub session : UserSession
  pub user : User
  pub shown : r.cookie ≡ some token
  pub serves :
      Serves (c.crypto.token_hash token) (c.registry.clock w.auth.tick) w.auth.tables session user
  pub is_user : who ≡ principal_for_user user
  pub permitted :
      (user.role ≡ Role.admin)
      ⊎ ((user.role ≡ Role.operator) × (p ≢ Permission.admin))
      ⊎ (p ≡ Permission.view)

-- An error, with the users, the sessions and the attempts as they were.
pub record Denied (statuses : ℕ → Type 0) (w : Front) (o : Response × Front) : Type 0 where
  pub status : ℕ
  pub text : String
  pub is_denial : statuses status
  pub is_refused : o.0 ≡ Response.refused status text
  pub same_tables : o.1.auth.tables ≡ w.auth.tables
  pub same_attempts : o.1.attempts ≡ w.attempts

pub audit-keeps :
    (o : Option Error) (event : open_cuttles.Api.AuditEvent) (w : Front)
    → ((write_audit o event w).auth.tables ≡ w.auth.tables)
      × ((write_audit o event w).attempts ≡ w.attempts)
audit-keeps (some e) event w = (refl, refl)
audit-keeps none event w = (refl, refl)

authenticate-Authorized :
    (c : Settings) (p : Permission) (r : Request) (w : Front) (who : Principal) (token : String)
    → (authenticate c r w).0 ≡ ok (who, token)
    → has_permission who p ≡ true
    → Authorized c p r w who
unfolding authenticate
authenticate-Authorized c p r w who token h may =
    let (s, u, shown, is_user, serves) =
      authenticate_request-Serves c.crypto.token_hash (c.registry.fault w.auth.tick) w.auth.tables
        (c.registry.clock w.auth.tick) r.cookie who token h in
    record {
      token = token;
      session = s;
      user = u;
      shown = shown;
      serves = serves;
      is_user = is_user;
      permitted =
          (has_permission-role u p).0
            (ap (λ (x : Principal). has_permission x p) (sym is_user) ∙ may);
    }

module _ (c : Settings) (r : Request) (w : Front) where
  abbrev pub IsRequired : Permission → (Principal → Handler) → Response × Front → Type 0
  IsRequired p next o =
      Denied (λ n. (n ≡ 401) ⊎ (n ≡ 403)) w o
      ⊎ ((who : Principal) × Authorized c p r w who × (o ≡ next who (asked w)))

  admit-IsRequired :
      (p : Permission) (next : Principal → Handler) (read : Result (Principal × String))
      → (authenticate c r w).0 ≡ read
      → IsRequired p next (admit c p next r read (asked w))
  unfolding admit audit
  admit-IsRequired p next (err e) h = inl (record {
    status = 401;
    text = "unauthorized";
    is_denial = inl refl;
    is_refused = refl;
    same_tables = refl;
    same_attempts = refl;
  })
  admit-IsRequired p next (ok (who, token)) h = elim (Bool-cases (has_permission who p)) [
    | inl may ↦ rw may (inr (who, authenticate-Authorized c p r w who token h may, refl))
    | inr may ↦ rw may (
        inl (record {
          status = 403;
          text = "forbidden";
          is_denial = inr refl;
          is_refused = refl;
          same_tables = (audit-keeps (c.registry.fault (asked w).auth.tick) _ (asked w)).0;
          same_attempts = (audit-keeps (c.registry.fault (asked w).auth.tick) _ (asked w)).1;
        }))
  ]

  -- A handler behind a permission runs only for a request that carries the token of a session that
  -- is in the table and expires at a time whose text is after that of the present, whose user is
  -- enabled and has a role with that permission, and it runs as that user; any other request is
  -- answered 401 or 403, and the users, the sessions and the attempts stay as they were.
  pub require-Authorized :
      (p : Permission) (next : Principal → Handler) → IsRequired p next (require c p next r w)
  unfolding require authenticate
  require-Authorized p next = admit-IsRequired p next (authenticate c r w).0 refl

  abbrev pub IsMcp : (Option Principal → Handler) → Response × Front → Type 0
  IsMcp next o =
      ((has_service_token c r ≡ true) × (o ≡ next none w))
      ⊎ Denied (λ n. n ≡ 401) w o
      ⊎ ((who : Principal) × Authorized c Permission.control r w who
          × (o ≡ next (some who) (asked w)))
