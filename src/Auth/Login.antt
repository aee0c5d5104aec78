-- ===== src/Auth/Login.antt =====
-- An administrator that was entered can log in.
use open_cuttles.Go.Times.{text_order, text_order_earlier}
use open_cuttles.Base.{
  ◌/◌, ltb, Bool-cases, lt→ltb, eq_refl, List, eq_iff, str_eq, String, length, ℕ, ◌+◌, ◌≡◌, ◌≢◌,
  ◌<◌, ◌||◌, ◌∙◌, inl, inr, [], ◌∷◌, if◌then◌else◌, ◌==◌, true, false, none, some, refl, sym, ap,
  arith,
}
use open_cuttles.Auth.Passwords.{IsSound, verify-encoded}
use open_cuttles.Auth.{
  get_session_user, accept, authenticate_request, AuthTables, User, Role, Principal,
  principal_for_user, create_session,
}
use open_cuttles.Auth.Accounts.{
  user_count, insert_user, iterations, create_user, hash_password, new_user, enter_admin,
  enter_first, check_login, login, normalize_username, bootstrap_admin, session_duration, draw,
  open_session, user_named, flatten_result, store_call, get_user_by_username, store_session, Crypto,
  Registry, AuthWorld, verify_password, encoded_password,
}
use open_cuttles.Go.Laws.{ok_injective}
use open_cuttles.Go.{message, is_ok, Result, ◌>>=◌, ok, err}
use open_cuttles.Go.Strings.{trim_space}
use open_cuttles.Go.Text.{Text}

-- Every random draw succeeds with as many bytes as were asked for.
abbrev pub HasEntropy : Registry → Type 0
HasEntropy g = (n size : ℕ) → (s : Text) × (g.random_bytes n size ≡ ok s) × (length s ≡ size)

abbrev pub NoFault : Registry → Type 0
NoFault g = (n : ℕ) → g.fault n ≡ none

module _ (c : Crypto) (g : Registry) (calm : NoFault g) where
  call_is :
      {A : Type 0} (body : AuthTables → A × AuthTables) (w : AuthWorld)
      → store_call g body w
        ≡ (ok (body w.tables).0, record { tick = w.tick + 1; tables = (body w.tables).1 })
  unfolding store_call
  call_is body w = rw (store_call, calm w.tick) refl

  flattened :
      {A : Type 0} (body : AuthTables → Result A × AuthTables) (w : AuthWorld)
      → flatten_result (store_call g body) w
        ≡ ((body w.tables).0, record { tick = w.tick + 1; tables = (body w.tables).1 })
  unfolding flatten_result ◌>>=◌
  flattened body w = rw (call_is body w) refl

  found_user :
      (name : String) (u : User) (w : AuthWorld)
      → user_named name w.tables.users ≡ ok u
      → get_user_by_username g name w ≡ (ok u, record w { tick = w.tick + 1 })
  unfolding get_user_by_username
  found_user name u w h = rw (flattened (λ t. (user_named name t.users, t)) w, h) refl

  opened :
      (u : User) (w : AuthWorld) (bytes : Text)
      → g.random_bytes w.tick 32 ≡ ok bytes
      → let expires = g.clock (w.tick + 1) + session_duration in
        open_session c g u w ≡ (
          ok (c.url_encode bytes, principal_for_user u, expires),
          record {
            tick = w.tick + 1 + 1;
            tables =
                create_session
                  (g.new_id (w.tick + 1))
                  u.id
                  (c.token_hash (c.url_encode bytes))
                  expires
                  w.tables;
          },
        )
  unfolding open_session draw store_session ◌>>=◌
  opened u w bytes h =
      let expires = g.clock (w.tick + 1) + session_duration in
      let open_row : AuthTables → Unit {0} × AuthTables = λ t. (
        tt,
        create_session (g.new_id (w.tick + 1)) u.id (c.token_hash (c.url_encode bytes)) expires t,
      ) in
      rw (h, call_is open_row (record w { tick = w.tick + 1 })) refl

  logged_in :
      (username : String) (password : Text) (u : User) (w : AuthWorld)
      → user_named (normalize_username username) w.tables.users ≡ ok u
      → u.disabled ≡ false
      → verify_password c password u.password_hash ≡ true
      → login c g username password w ≡ open_session c g u (record w { tick = w.tick + 1 })
  unfolding login check_login ◌>>=◌
  logged_in username password u w found enabled right =
      rw (found_user (normalize_username username) u w found, enabled, right) refl

not_empty : (s : String) → s ≢ "" → str_eq s "" ≡ false
not_empty s h = ground (arith, h, eq_iff s "")

empty_list : {A : Type 0} (xs : List A) → (length xs == 0) ≡ true → xs ≡ []
empty_list [] h = refl
empty_list (x ∷ xs) h = absurd (ground (arith, h))

module _ (c : Crypto) (g : Registry) (calm : NoFault g) (name display : String)
    (password : Text) where
  -- The row that is entered with this salt, at the tick after the salt is drawn.
  entered : Text → ℕ → User
  entered salt n =
      new_user (g.new_id n) name
        (if str_eq (trim_space display) "" then name else trim_space display) Role.admin
        (encoded_password c salt (c.pbkdf2 password salt iterations 32))

  entered_admin :
      (w : AuthWorld) (salt : Text)
      → g.random_bytes w.tick 16 ≡ ok salt
      → w.tables.users ≡ []
      → enter_admin c g name display password w ≡ (
        ok (principal_for_user (entered salt (w.tick + 1))),
        record {
          tick = w.tick + 1 + 1;
          tables = record w.tables { users = entered salt (w.tick + 1) ∷ [] };
        },
      )
  unfolding entered enter_admin hash_password draw create_user insert_user user_named is_ok ◌>>=◌
  entered_admin w salt h none_yet =
      rw
        (
          h,
          flattened c g calm (insert_user (entered salt (w.tick + 1)))
              (record w { tick = w.tick + 1 }),
          none_yet,
        )
        refl

  entered_first :
      (w : AuthWorld) (p : Principal)
      → (enter_first c g name display password (length w.tables.users) w).0 ≡ ok p
      → (w.tables.users ≡ [])
        × (enter_first c g name display password (length w.tables.users) w
            ≡ enter_admin c g name display password w)
  unfolding enter_first
  entered_first w p h = elim (Bool-cases (length w.tables.users == 0)) [
    | inr e ↦
        let refused : (enter_first c g name display password (length w.tables.users) w).0
            ≡ err (message "admin user already exists") =
          rw e refl in
        cc (refused, h)
    | inl e ↦ elim (Bool-cases (str_eq name "" || ltb (length password) 12)) [
      | inl f ↦
          let refused : (enter_first c g name display password (length w.tables.users) w).0
              ≡ err (message "username and a 12 character password are required") =
            rw (e, f) refl in
          cc (refused, h)
      | inr f ↦ (empty_list w.tables.users e, rw (e, f) refl)
    ]
  ]

counted :
    (c : Crypto) (g : Registry)
    → NoFault g
    → (username display : String) (password : Text) (w : AuthWorld)
    → bootstrap_admin c g username display password w
      ≡ enter_first c g
          (normalize_username username)
          display
          password
          (length w.tables.users)
          (record w { tick = w.tick + 1 })
unfolding bootstrap_admin user_count ◌>>=◌
counted c g calm username display password w =
    rw (call_is c g calm (λ t. (length t.users, t)) w) refl

module _ (c : Crypto) (g : Registry) (sound : IsSound c) (calm : NoFault g) (entropy : HasEntropy g)
    (username display : String) (password : Text) where
  -- Where the first administrator could be entered, it is the one user.
  bootstrapped :
      (w : AuthWorld) (p : Principal)
      → (bootstrap_admin c g username display password w).0 ≡ ok p
      → (u : User) × ((bootstrap_admin c g username display password w).1.tables.users ≡ u ∷ [])
        × (u.username ≡ normalize_username username)
        × (u.disabled ≡ false)
        × (verify_password c password u.password_hash ≡ true)
        × (p ≡ principal_for_user u)
  unfolding entered
  bootstrapped w p h =
      let v : AuthWorld = record w { tick = w.tick + 1 } in
      let name = normalize_username username in
      let start = counted c g calm username display password w in
      let (none_yet, first) =
        entered_first c g calm name display password v p (sym (ap (λ r. r.0) start) ∙ h) in
      let (salt, drawn, _) = entropy v.tick 16 in
      let same =
        start ∙ first ∙ entered_admin c g calm name display password v salt drawn none_yet in
      (
        entered c g calm name display password salt (v.tick + 1),
        ap (λ r. r.1.tables.users) same,
        refl,
        refl,
        verify-encoded c password salt sound,
        ok_injective (sym h ∙ ap (λ r. r.0) same),
      )

named_first :
    (name : String) (u : User) (t : AuthTables)
    → t.users ≡ u ∷ []
    → u.username ≡ name
    → user_named name t.users ≡ ok u
unfolding user_named
named_first name u t h e = rw (h, e, eq_refl name) refl

accepted :
    (c : Crypto) (t : AuthTables) (u : User) (id token : String) (expires now : ℕ)
    → t.users ≡ u ∷ []
    → u.disabled ≡ false
    → token ≢ ""
    → now / 1000 < expires / 1000
    → authenticate_request c.token_hash none
        (create_session id u.id (c.token_hash token) expires t)
        now
        (some token)
      ≡ ok (principal_for_user u, token)
unfolding authenticate_request accept get_session_user create_session
accepted c t u id token expires now h enabled shown live =
    rw
      (
        not_empty token shown,
        h,
        eq_refl (c.token_hash token),
        lt→ltb (text_order now) (text_order expires) (text_order_earlier now expires live),
        eq_refl u.id,
        enabled,
      )
      refl

-- Where no database call fails and random bytes can be drawn: once the first administrator could be
-- entered, a login with the same user name and password succeeds as that principal, and its token
-- authenticates requests as that principal until the second in which it expires.
pub bootstrap_admin-login :
    (c : Crypto) (g : Registry)
    → IsSound c
    → NoFault g
    → HasEntropy g
    → (username display : String) (password : Text) (w : AuthWorld) (p : Principal)
    → (bootstrap_admin c g username display password w).0 ≡ ok p
    → let v = (bootstrap_admin c g username display password w).1 in
      (token : String) × (expires : ℕ) × ((login c g username password v).0
        ≡ ok (token, p, expires))
      × ((now : ℕ)
          → now / 1000 < expires / 1000
          → authenticate_request c.token_hash none
              (login c g username password v).1.tables
              now
              (some token)
            ≡ ok (p, token))
bootstrap_admin-login c g sound calm entropy username display password w p h =
    let (u, users, name, enabled, right, who) =
      bootstrapped c g sound calm entropy username display password w p h in
    let v = (bootstrap_admin c g username display password w).1 in
    let (bytes, drawn, size) = entropy (v.tick + 1) 32 in
    let token = c.url_encode bytes in
    let shown = sound.token_shown bytes (omega (arith, size)) in
    let entry =
      logged_in c g calm username password u v
        (named_first (normalize_username username) u v.tables users name) enabled right
      ∙ opened c g calm u (record v { tick = v.tick + 1 }) bytes drawn in
    (
      token,
      g.clock (v.tick + 1 + 1) + session_duration,
      ap (λ r. r.0) entry
          ∙ ap (λ q. ok (token, q, g.clock (v.tick + 1 + 1) + session_duration)) (sym who),
      λ now live.
          ap (λ r. authenticate_request c.token_hash none r.1.tables now (some token)) entry
          ∙ accepted c v.tables u (g.new_id (v.tick + 1 + 1)) token
              (g.clock (v.tick + 1 + 1) + session_duration) now users enabled shown live
          ∙ ap (λ q. ok (q, token)) (sym who),
    )
