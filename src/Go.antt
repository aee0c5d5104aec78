-- ===== src/Go.antt =====
-- What the Go code relies on everywhere: `error` values, and functions that read and write state
-- and return a value or an error. What was written before an error stays written.
pub mod Laws
pub mod Strings
pub mod Times
pub mod Numbers
pub mod Text
use Prim.Native.String.{◌++◌ as concat}
use open_cuttles.Base.{String, Bool, true, false}

-- `no_rows` is sql.ErrNoRows, `deadline_exceeded` is context.DeadlineExceeded; `wrapped` is
-- fmt.Errorf with %w between two texts.
pub data Error : Type 0 where
  no_rows deadline_exceeded : Error
  message : String → Error
  wrapped : String → Error → String → Error

unfoldable pub error_text : Error → String
error_text no_rows = "sql: no rows in result set"
error_text deadline_exceeded = "context deadline exceeded"
error_text (message s) = s
error_text (wrapped before e after) = concat before (concat (error_text e) after)

-- errors.Is(err, sql.ErrNoRows)
unfoldable pub is_not_found : Error → Bool
is_not_found no_rows = true
is_not_found (wrapped before e after) = is_not_found e
is_not_found _ = false

pub data Result {ℓ} (A : Type ℓ) : Type ℓ where
  ok : A → Result A
  err : Error → Result A

abbrev pub Exec {ℓ} : Type ℓ → Type ℓ → Type ℓ
Exec W A = W → Result A × W

module _ {ℓ} {W A : Type ℓ} where
  abbrev pub pure : A → Exec W A
  pure a w = (ok a, w)

  abbrev pub raise : Error → Exec W A
  raise e w = (err e, w)

  -- `x, err := m()` followed by code that looks at `err` itself.
  abbrev pub attempt : Exec W A → Exec W (Result A)
  attempt m w = let (r, w') = m w in (ok r, w')

module _ {ℓ} {W A B : Type ℓ} where
  abbrev pub continue : Result A → (A → Exec W B) → Exec W B
  continue (ok a) f w = f a w
  continue (err e) f w = (err e, w)

  -- `if err != nil { return err }` after each step.
  infixl 10 ◌>>=◌ ◌>>◌
  unfoldable pub ◌>>=◌ : Exec W A → (A → Exec W B) → Exec W B
  ◌>>=◌ m f w = let (r, w') = m w in continue r f w'

  abbrev pub ◌>>◌ : Exec W A → Exec W B → Exec W B
  m >> n = m >>= λ _. n

-- `x, err := m(); if err != nil { … }` where the code goes on either way.
abbrev pub branch {ℓ} : {W A C : Type ℓ} → Result A × W → (Error → W → C) → (A → W → C) → C
branch (err e, w) bad good = bad e w
branch (ok a, w) bad good = good a w

unfoldable pub is_ok {ℓ} : {A : Type ℓ} → Result A → Bool
is_ok (ok a) = true
is_ok (err e) = false
