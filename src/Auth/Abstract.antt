-- ===== src/Auth/Abstract.antt =====
-- The table of sessions against what it is for: a map from the hash of a token and a time to the
-- session and user that the token stands for.
use open_cuttles.Go.Times.{text_order}
use open_cuttles.Base.{
  eq_iff, Option-cases, ltb, str_eq, All, String, List, ℕ, ◌≡◌, ◌≤◌, ◌&&◌, ◌∙◌, inl, inr, [], ◌∷◌,
  if◌then◌else◌, none, some, refl, ap, arith,
}
use open_cuttles.Go.{no_rows, Result, ok, err}
use open_cuttles.Auth.{
  query_session, without_hash, live_sessions, first_user, joined, create_session, delete_session,
  prune_expired_sessions, AuthTables, UserSession, User,
}

-- What changes the sessions: a login, a logout, and a sweep at a time.
pub data Change : Type 0 where
  issue : String → String → String → ℕ → Change
  revoke : String → Change
  sweep : ℕ → Change

unfoldable pub apply_change : Change → AuthTables → AuthTables
unfolding create_session delete_session prune_expired_sessions
apply_change (Change.issue id user hash expires) t = create_session id user hash expires t
apply_change (Change.revoke hash) t = delete_session hash t
apply_change (Change.sweep at) t = prune_expired_sessions at t

-- The tables after changes, of which the last stands first.
unfoldable pub after_changes : List Change → AuthTables → AuthTables
unfolding apply_change
after_changes [] t = t
after_changes (c ∷ earlier) t = apply_change c (after_changes earlier t)

abbrev pub Lookup : Type 0
Lookup = String → ℕ → Result (UserSession × User)

-- A login answers for its token while the text of the time is before that of its expiry, a logout takes a token away, and a sweep is not
-- seen.
unfoldable pub seen_after : List User → List Change → Lookup → Lookup
seen_after users [] f hash now = f hash now
seen_after users (Change.issue id user h expires ∷ earlier) f hash now =
    let s : UserSession = record {
      id = id;
      user_id = user;
      token_hash = h;
      expires_at = expires;
    } in
    let older = seen_after users earlier f hash now in
    if str_eq h hash && ltb (text_order now) (text_order expires)
    then elim (joined s users) [ some u ↦ ok (s, u) | none ↦ older ]
    else older
seen_after users (Change.revoke h ∷ earlier) f hash now =
    let older = seen_after users earlier f hash now in if str_eq h hash then err no_rows else older
seen_after users (Change.sweep at ∷ earlier) f hash now = seen_after users earlier f hash now

-- The sweeps of a sequence of changes are at times whose texts are not after that of this time.
abbrev pub IsSweptBefore : ℕ → Change → Type 0
IsSweptBefore now (Change.sweep at) = text_order at ≤ text_order now
IsSweptBefore now _ = Unit

query_session-swept :
    (hash : String) (at now : ℕ) (users : List User) (rows : List UserSession)
    → text_order at ≤ text_order now
    → query_session hash now users (live_sessions at rows) ≡ query_session hash now users rows
unfolding query_session live_sessions
query_session-swept hash at now users [] h = refl
query_session-swept hash at now users (r ∷ rest) h =
    ground (arith, query_session-swept hash at now users rest h)

query_session-revoked :
    (h hash : String) (now : ℕ) (users : List User) (rows : List UserSession)
    → query_session hash now users (without_hash h rows)
      ≡ (if str_eq h hash then err no_rows else query_session hash now users rows)
unfolding query_session without_hash
query_session-revoked h hash now users [] = ground arith
query_session-revoked h hash now users (r ∷ rest) = ground (
  arith,
  query_session-revoked h hash now users rest,
  eq_iff r.token_hash h,
  eq_iff h hash,
  eq_iff r.token_hash hash,
)

query_session-issued :
    (s : UserSession) (hash : String) (now : ℕ) (users : List User) (rows : List UserSession)
    → query_session hash now users (s ∷ rows) ≡ (
        if str_eq s.token_hash hash && ltb (text_order now) (text_order s.expires_at)
        then elim (joined s users) as (λ _. Result (UserSession × User)) [
          | some u ↦ ok (s, u)
          | none ↦ query_session hash now users rows
        ]
        else query_session hash now users rows)
unfolding query_session first_user
query_session-issued s hash now users rows = elim (Option-cases (joined s users)) [
  | inl e ↦ rw e refl
  | inr (u, e) ↦ rw e refl
]

-- After any sequence of logins, logouts and sweeps of sessions, none of the sweeps at a time
-- whose text is after that of the present, the table answers for a token as the map does, in which
-- a session lasts while the text of the present is before that of its expiry.
pub after_changes-refines :
    (cs : List Change) (t : AuthTables) (hash : String) (now : ℕ)
    → All (IsSweptBefore now) cs
    → query_session hash now t.users (after_changes cs t).sessions
      ≡ seen_after t.users cs (λ h n. query_session h n t.users t.sessions) hash now
unfolding after_changes seen_after
after_changes-refines [] t hash now k = refl
after_changes-refines (Change.issue id user h expires ∷ cs) t hash now (_, k) =
    let s : UserSession = record {
      id = id;
      user_id = user;
      token_hash = h;
      expires_at = expires;
    } in
    query_session-issued s hash now t.users (after_changes cs t).sessions
    ∙ ap
        (λ r.
          if str_eq h hash && ltb (text_order now) (text_order expires)
          then elim (joined s t.users) as (λ _. Result (UserSession × User)) [
            | some u ↦ ok (s, u)
            | none ↦ r
          ]
          else r)
        (after_changes-refines cs t hash now k)
after_changes-refines (Change.revoke h ∷ cs) t hash now (_, k) =
    query_session-revoked h hash now t.users (after_changes cs t).sessions
    ∙ ap (λ r. if str_eq h hash then err no_rows else r) (after_changes-refines cs t hash now k)
after_changes-refines (Change.sweep at ∷ cs) t hash now (b, k) =
    query_session-swept hash at now t.users (after_changes cs t).sessions b
    ∙ after_changes-refines cs t hash now k
