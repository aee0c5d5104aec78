-- ===== src/Orchestrator/Jobs/Rules.antt =====
-- A postcondition of `handle`, and what the shared endings of a job leave.
use open_cuttles.Base.{◌≡◌, refl}
use open_cuttles.Go.{Error, Result, ok, err, Exec}
use open_cuttles.Store.{World}
use open_cuttles.Orchestrator.Jobs.{handle, settle}

module _ {A : Type 0} (Q : World → Type 0) where
  settle-rule :
      (r : Result A) (bad : Error → World → World) (good : A → World → World) (w : World)
      → ((e : Error) → r ≡ err e → Q (bad e w))
      → ((a : A) → r ≡ ok a → Q (good a w))
      → Q (settle r bad good w)
  unfolding settle
  settle-rule (ok a) bad good w b g = g a refl
  settle-rule (err e) bad good w b g = b e refl

  pub handle-rule :
      (m : Exec World A) (bad : Error → World → World) (good : A → World → World) (w : World)
      → ((e : Error) → (m w).0 ≡ err e → Q (bad e (m w).1))
      → ((a : A) → (m w).0 ≡ ok a → Q (good a (m w).1))
      → Q (handle m bad good w)
  unfolding handle
  handle-rule m bad good w b g = settle-rule (m w).0 bad good (m w).1 b g
