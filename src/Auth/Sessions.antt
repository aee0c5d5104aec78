-- ===== src/Auth/Sessions.antt =====
-- Who is authenticated by a token.
use open_cuttles.Go.Times.{text_order}
use open_cuttles.Go.Laws.{ok_injective}
use open_cuttles.Base.{
  Option-cases, subst, ltb, eq_iff, not, str_eq, Bool-cases, ℕ, Option, List, String, ◌≡◌, ◌<◌,
  ◌&&◌, ◌⊎◌, ◌∙◌, inl, inr, [], ◌∷◌, false, none, some, refl, sym, ap, arith,
}
use open_cuttles.Go.{Result, no_rows, Error, ok, err}
use open_cuttles.Auth.{
  delete_session, get_session_user, accept, unauthorized, first_user, AuthTables, UserSession, User,
  Principal, query_session, joined, authenticate_request, logout, without_hash, principal_for_user,
}

abbrev pub IsRow : {A : Type 0} → A → List A → Type 0
IsRow x [] = ⊥
IsRow x (y ∷ rest) = (x ≡ y) ⊎ IsRow x rest

joined-IsRow :
    (s : UserSession) (users : List User) (u : User)
    → joined s users ≡ some u
    → (u.id ≡ s.user_id) × (u.disabled ≡ false) × IsRow u users
unfolding joined
joined-IsRow s [] u h = cc h
joined-IsRow s (v ∷ rest) u h = elim (Bool-cases (str_eq v.id s.user_id && not v.disabled)) [
  | inl e ↦
      let same : v ≡ u = ground arith in
      (ground (arith, eq_iff v.id s.user_id), ground arith, inl (sym same))
  | inr e ↦ let (a, b, c) = joined-IsRow s rest u (ground arith) in (a, b, inr c)
]

abbrev pub Serves : String → ℕ → AuthTables → UserSession → User → Type 0
Serves hash now t s u =
    (s.token_hash ≡ hash)
    × (text_order now < text_order s.expires_at)
    × (u.id ≡ s.user_id)
    × (u.disabled ≡ false)
    × IsRow s t.sessions
    × IsRow u t.users

query_session-Serves :
    (hash : String) (now : ℕ) (users : List User) (rows : List UserSession) (s : UserSession)
    (u : User)
    → query_session hash now users rows ≡ ok (s, u)
    → Serves hash now (record { users = users; sessions = rows }) s u
unfolding query_session first_user
query_session-Serves hash now users [] s u h = cc h
query_session-Serves hash now users (r ∷ rest) s u h =
    elim (Bool-cases (str_eq r.token_hash hash && ltb (text_order now) (text_order r.expires_at))) [
      | inl e ↦ elim (Option-cases (joined r users)) [
        | inl n ↦
            let (a, b, c, d, f, g) = query_session-Serves hash now users rest s u (ground arith) in
            (a, b, c, d, inr f, g)
        | inr (v, j) ↦
            let here : r ≡ s = ground arith in
            let there : v ≡ u = ground arith in
            let (a, b, c) = joined-IsRow r users u (j ∙ ap some there) in
            (
              ground (arith, eq_iff r.token_hash hash),
              ground arith,
              a ∙ ap (λ (x : UserSession). x.user_id) here,
              b,
              inl (sym here),
              c,
            )
      ]
      | inr e ↦
          let (a, b, c, d, f, g) = query_session-Serves hash now users rest s u (ground arith) in
          (a, b, c, d, inr f, g)
    ]

get_session_user-Serves :
    (fault : Option Error) (t : AuthTables) (hash : String) (now : ℕ) (s : UserSession) (u : User)
    → get_session_user fault t hash now ≡ ok (s, u)
    → Serves hash now t s u
unfolding get_session_user
get_session_user-Serves (some e) t hash now s u h = cc h
get_session_user-Serves none t hash now s u h =
    query_session-Serves hash now t.users t.sessions s u h

accept-Serves :
    (token : String) (r : Result (UserSession × User)) (p : Principal) (shown : String)
    → accept token r ≡ ok (p, shown)
    → (s : UserSession) × (u : User) × (r ≡ ok (s, u))
      × (p ≡ principal_for_user u)
      × (token ≡ shown)
unfolding accept
accept-Serves token (err e) p shown h = cc h
accept-Serves token (ok (s, u)) p shown h =
    (s, u, refl, ap (λ x. x.0) (sym (ok_injective h)), ap (λ x. x.1) (ok_injective h))

query_session-without_hash :
    (hash : String) (now : ℕ) (users : List User) (rows : List UserSession)
    → query_session hash now users (without_hash hash rows) ≡ err no_rows
unfolding query_session without_hash
query_session-without_hash hash now users [] = refl
query_session-without_hash hash now users (r ∷ rest) =
    ground (arith, query_session-without_hash hash now users rest)

get_session_user-deleted :
    (fault : Option Error) (t : AuthTables) (hash : String) (now : ℕ)
    → (e : Error) × (get_session_user fault (delete_session hash t) hash now ≡ err e)
unfolding get_session_user delete_session
get_session_user-deleted (some e) t hash now = (e, refl)
get_session_user-deleted none t hash now =
    (no_rows, query_session-without_hash hash now t.users t.sessions)

-- A request that is authenticated carries a token whose session is in the table and expires at a
-- time that is written after the present, and it acts as that session's user, who is not disabled.
pub authenticate_request-Serves :
    (token_hash : String → String) (fault : Option Error) (t : AuthTables) (now : ℕ)
    (cookie : Option String) (p : Principal) (token : String)
    → authenticate_request token_hash fault t now cookie ≡ ok (p, token)
    → (s : UserSession) × (u : User) × (cookie ≡ some token)
      × (p ≡ principal_for_user u)
      × Serves (token_hash token) now t s u
unfolding authenticate_request
authenticate_request-Serves token_hash fault t now none p token h = cc h
authenticate_request-Serves token_hash fault t now (some shown) p token h =
    elim (Bool-cases (str_eq shown "")) [
      | inl e ↦ cc (e, h)
      | inr e ↦
          let (s, u, r, q, same) =
            accept-Serves shown (get_session_user fault t (token_hash shown) now) p token
              (ground arith) in
          (
            s,
            u,
            ap some same,
            q,
            subst (λ x. Serves (token_hash x) now t s u) same
                (get_session_user-Serves fault t (token_hash shown) now s u r),
          )
    ]

-- After a logout the token authenticates no request, at any time.
pub logout-authenticate_request :
    (token_hash : String → String) (fault : Option Error) (t : AuthTables) (now : ℕ)
    (token : String)
    → authenticate_request token_hash fault (logout token_hash token t) now (some token)
      ≡ err unauthorized
unfolding authenticate_request logout accept
logout-authenticate_request token_hash fault t now token = elim (Bool-cases (str_eq token "")) [
  | inl e ↦ rw e refl
  | inr e ↦ let (x, q) = get_session_user-deleted fault t (token_hash token) now in rw e (rw q refl)
]
