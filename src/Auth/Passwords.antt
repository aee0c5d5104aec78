-- ===== src/Auth/Passwords.antt =====
-- A password verifies against what it was stored as.
use open_cuttles.Base.{
  length, ℕ, All, ◌≡◌, ◌≢◌, ◌<◌, ◌∙◌, [], ◌∷◌, ◌++◌, ◌==◌, true, false, some, refl, ap, arith,
}
use open_cuttles.Base.Int.{pos}
use open_cuttles.Go.Text.{Text, split_by, same_text}
use open_cuttles.Go.Strings.{codes}
use open_cuttles.Go.{ok}
use open_cuttles.Auth.Accounts.{Crypto, verify_password, encoded_password, verify_parts}

-- What the packages are documented to do: base64 is decoded to what was encoded and has no dollar
-- sign, that of some bytes is not empty, the key has the length that was asked for, and 210000 is
-- read as that number.
pub record IsSound (c : Crypto) : Type 0 where
  pub decodes : (s : Text) → c.decode (c.encode s) ≡ ok s
  pub no_dollar : (s : Text) → All (λ d. (d == 36) ≡ false) (c.encode s)
  pub key_length :
      (password salt : Text) (n : ℕ) → length (c.pbkdf2 password salt (pos 210000) n) ≡ n
  pub token_shown : (s : Text) → 0 < length s → c.url_encode s ≢ ""
  pub scans : c.scan_int (codes "210000") ≡ some (pos 210000)

split_last : (s : Text) → All (λ d. (d == 36) ≡ false) s → split_by (λ d. d == 36) s ≡ s ∷ []
unfolding split_by
split_last [] k = refl
split_last (d ∷ s) (e, k) = rw (e, split_last s k) refl

split_first :
    (s t : Text)
    → All (λ d. (d == 36) ≡ false) s
    → split_by (λ d. d == 36) (s ++ 36 ∷ t) ≡ s ∷ split_by (λ d. d == 36) t
unfolding split_by
split_first [] t k = refl
split_first (d ∷ s) t (e, k) = rw (e, split_first s t k) refl

same_text_refl : (s : Text) → same_text s s ≡ true
unfolding same_text
same_text_refl [] = refl
same_text_refl (d ∷ s) = ground (arith, same_text_refl s)

parts :
    (c : Crypto) (salt key : Text)
    → IsSound c
    → split_by (λ d. d == 36) (encoded_password c salt key)
      ≡ codes "pbkdf2-sha256" ∷ codes "210000" ∷ c.encode salt ∷ c.encode key ∷ []
unfolding encoded_password codes
parts c salt key sound =
    split_first (codes "pbkdf2-sha256") _ (
      refl,
      (
        refl,
        (refl, (refl, (refl, (refl, (refl, (refl, (refl, (refl, (refl, (refl, (refl, tt))))))))))),
      ),
    )
    ∙ ap (◌∷◌ (codes "pbkdf2-sha256")) (
        split_first (codes "210000") _ (refl, (refl, (refl, (refl, (refl, (refl, tt))))))
        ∙ ap (◌∷◌ (codes "210000")) (
            split_first (c.encode salt) (c.encode key) (sound.no_dollar salt)
            ∙ ap (◌∷◌ (c.encode salt)) (split_last (c.encode key) (sound.no_dollar key))))

-- A password verifies against what hash_password made of it.
pub verify-encoded :
    (c : Crypto) (password salt : Text)
    → IsSound c
    → verify_password c password (encoded_password c salt (c.pbkdf2 password salt (pos 210000) 32))
      ≡ true
unfolding verify_password
verify-encoded c password salt sound =
    let key = c.pbkdf2 password salt (pos 210000) 32 in
    ap (verify_parts c password) (parts c salt key sound)
    ∙ rw
        (
          same_text_refl (codes "pbkdf2-sha256"),
          sound.decodes salt,
          sound.decodes key,
          sound.scans,
          sound.key_length password salt 32,
        )
        (same_text_refl key)
