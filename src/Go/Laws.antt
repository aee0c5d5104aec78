-- ===== src/Go/Laws.antt =====
-- Rules to reason about a chain of fallible steps without computing it.
use open_cuttles.Base.{ap, ◌≡◌, refl, ◌⊎◌, inl, inr}
use open_cuttles.Go.{branch, Error, Result, ok, err, Exec, continue, ◌>>=◌}

pub Result-cases {ℓ} :
    {A : Type ℓ} (r : Result A) → ((a : A) × (r ≡ ok a)) ⊎ ((e : Error) × (r ≡ err e))
Result-cases (ok a) = inl (a, refl)
Result-cases (err e) = inr (e, refl)

module _ {ℓ κ} {W A B : Type ℓ} (Q : Result B → W → Type κ) where
  continue-rule :
      (r : Result A) (f : A → Exec W B) (w : W)
      → ((e : Error) → r ≡ err e → Q (err e) w)
      → ((a : A) → r ≡ ok a → Q (f a w).0 (f a w).1)
      → Q (continue r f w).0 (continue r f w).1
  continue-rule (ok a) f w bad good = good a refl
  continue-rule (err e) f w bad good = bad e refl

  -- A postcondition of `m >>= f`, from one for each way in which `m` ends.
  pub bind-rule :
      (m : Exec W A) (f : A → Exec W B) (w : W)
      → ((e : Error) → (m w).0 ≡ err e → Q (err e) (m w).1)
      → ((a : A) → (m w).0 ≡ ok a → Q (f a (m w).1).0 (f a (m w).1).1)
      → Q ((m >>= f) w).0 ((m >>= f) w).1
  unfolding ◌>>=◌
  bind-rule m f w bad good = continue-rule (m w).0 f (m w).1 bad good

pub ok_injective : {A : Type 0} {a b : A} → ok a ≡ ok b → a ≡ b
ok_injective h = cc h

module _ {W A B : Type 0} where
  continue_ok :
      (r : Result A) (f : A → Exec W B) (w : W) (c : B)
      → (continue r f w).0 ≡ ok c
      → (a : A) × (r ≡ ok a) × ((f a w).0 ≡ ok c)
  continue_ok (ok a) f w c h = (a, refl, h)
  continue_ok (err e) f w c h = cc h

  -- A chain that succeeds went through its first step.
  pub bind_ok :
      (m : Exec W A) (f : A → Exec W B) (w : W) (c : B)
      → ((m >>= f) w).0 ≡ ok c
      → (a : A) × ((m w).0 ≡ ok a) × ((f a (m w).1).0 ≡ ok c)
  unfolding ◌>>=◌
  bind_ok m f w c h = continue_ok (m w).0 f (m w).1 c h

module _ {W A B : Type 0} where
  continue-runs :
      (r : Result A) (f : A → Exec W B) (w : W) (a : A) → r ≡ ok a → continue r f w ≡ f a w
  continue-runs (ok c) f w a h = ap (λ x. f x w) (ok_injective h)
  continue-runs (err e) f w a h = cc h

  -- After a first step that succeeds, the second runs where it ended.
  pub bind-runs :
      (m : Exec W A) (f : A → Exec W B) (w : W) (a : A) → (m w).0 ≡ ok a → (m >>= f) w ≡ f a (m w).1
  unfolding ◌>>=◌
  bind-runs m f w a h = continue-runs (m w).0 f (m w).1 a h

-- What holds of a branch on an outcome, from what holds of it in each case.
pub branch-rule {ℓ κ} :
    {W A C : Type ℓ} (R : C → Type κ) (p : Result A × W) (bad : Error → W → C) (good : A → W → C)
    → ((e : Error) → p.0 ≡ err e → R (bad e p.1))
    → ((a : A) → p.0 ≡ ok a → R (good a p.1))
    → R (branch p bad good)
branch-rule R (err e, w) bad good h k = h e refl
branch-rule R (ok a, w) bad good h k = k a refl
