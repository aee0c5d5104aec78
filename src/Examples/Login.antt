-- ===== src/Examples/Login.antt =====
-- The theorem about the first administrator, applied.
use open_cuttles.Base.{
  ◌/◌, String, All, length, ℕ, map, ◌+◌, ◌-◌, ◌≡◌, ◌≢◌, ◌<◌, [], ◌∷◌, ◌==◌, zero, suc, false, none,
  some, refl, ap, arith,
}
use open_cuttles.Auth.{Role, principal_for_user, Principal, authenticate_request}
use open_cuttles.Auth.Accounts.{new_user, Crypto, Registry, AuthWorld, bootstrap_admin, login}
use open_cuttles.Go.Text.{Text}
use open_cuttles.Base.Int.{pos}
use open_cuttles.Go.{◌>>=◌, ◌>>◌, ok, err}
use open_cuttles.Auth.Passwords.{IsSound}
use open_cuttles.Auth.Login.{bootstrap_admin-login}

abbrev zeros : ℕ → Text
zeros zero = []
zeros (suc n) = 0 ∷ zeros n

abbrev pub crypto : Crypto
crypto = record {
  encode = λ s. map (λ d. d + 100) s;
  decode = λ s. ok (map (λ d. d - 100) s);
  pbkdf2 = λ password salt n size. zeros size;
  token_hash = λ token. token;
  scan_int = λ s. some (pos 210000);
  url_encode = λ s. elim s [ [] ↦ "" | _ ↦ "token" ];
}

shifted : (s : Text) → map (λ d. d - 100) (map (λ d. d + 100) s) ≡ s
shifted [] = refl
shifted (d ∷ s) = λ i. add_sub d i ∷ shifted s i
  where
    add_sub : (d : ℕ) → d + 100 - 100 ≡ d
    add_sub d = omega arith

undollared : (s : Text) → All (λ d. (d == 36) ≡ false) (map (λ d. d + 100) s)
undollared [] = tt
undollared (d ∷ s) = (ground arith, undollared s)

length-zeros : (n : ℕ) → length (zeros n) ≡ n
length-zeros zero = refl
length-zeros (suc n) = ap suc (length-zeros n)

crypto-IsSound : IsSound crypto
crypto-IsSound = record {
  decodes = λ s. ap ok (shifted s);
  no_dollar = undollared;
  key_length = λ password salt n. length-zeros n;
  token_shown = token;
  scans = refl;
}
  where
    token : (s : Text) → 0 < length s → crypto.url_encode s ≢ ""
    token [] h = absurd (omega (arith, h))
    token (d ∷ s) h = λ e. cc e

abbrev pub registry : Registry
registry = record {
  fault = λ n. none;
  new_id = λ n. "id";
  random_bytes = λ n size. ok (zeros size);
  clock = λ n. n;
}

abbrev empty_store : AuthWorld
empty_store = record { tick = 0; tables = record { users = []; sessions = [] } }

abbrev entered : AuthWorld
entered = (bootstrap_admin crypto registry "Root" "" (zeros 12) empty_store).1

abbrev root : Principal
root = principal_for_user (new_user "id" "root" "root" Role.admin [])

bootstrap_admin-login_example :
    (token : String) × (expires : ℕ) × ((login crypto registry "Root" (zeros 12) entered).0
      ≡ ok (token, root, expires))
    × ((now : ℕ)
        → now / 1000 < expires / 1000
        → authenticate_request crypto.token_hash none
            (login crypto registry "Root" (zeros 12) entered).1.tables
            now
            (some token)
          ≡ ok (root, token))
unfolding bootstrap_admin ◌>>=◌ open_cuttles.Go.is_ok
bootstrap_admin-login_example =
    bootstrap_admin-login crypto registry crypto-IsSound (λ n. refl)
      (λ n size. (zeros size, refl, length-zeros size)) "Root" "" (zeros 12) empty_store root refl
