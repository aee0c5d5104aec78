-- ===== src/Scenario/Counts.antt =====
-- The verdict of one case, and the totals of a whole run.
use open_cuttles.Domain.{StepStatus, StepResult}
use open_cuttles.Base.{
  length, ◌↔◌, All, String, List, ℕ, ◌≡◌, ◌≢◌, ◌≤◌, ◌<◌, [], ◌∷◌, true, false, refl, arith,
}
use open_cuttles.Go.{Result, ok, err}
use open_cuttles.Scenario.Verdict.{Category, classify, has_fail, has_blocked}

abbrev pub IsClean : StepResult → Type 0
IsClean s = (s.status ≢ StepStatus.fail) × (s.status ≢ StepStatus.blocked)

no_fail :
    (steps : List StepResult)
    → All IsClean steps
    → (has_fail steps ≡ false) × (has_blocked steps ≡ false)
unfolding has_fail has_blocked
no_fail [] h = (refl, refl)
no_fail (s ∷ rest) (c, h) = ground (arith, no_fail rest h)

clean :
    (steps : List StepResult)
    → has_fail steps ≡ false
    → has_blocked steps ≡ false
    → All IsClean steps
unfolding has_fail has_blocked
clean [] f b = tt
clean (s ∷ rest) f b = ground (arith, clean rest)

-- A case passes exactly when the agent answered, at least one step was reported, no fewer than the
-- case has, and none of them failed or was blocked; the pass flag says the same.
pub classify-pass :
    (steps : List StepResult) (expected : ℕ) (answer : Result String)
    → let verdict = classify steps expected answer in
      ((verdict.0 ≡ Category.pass) ↔ (
        (terminal : String) × (answer ≡ ok terminal)
        × (0 < length steps)
        × (expected ≤ length steps)
        × All IsClean steps))
      × ((verdict.1 ≡ true) ↔ (verdict.0 ≡ Category.pass))
unfolding classify
classify-pass steps expected (err e) = ground arith
classify-pass steps expected (ok terminal) = ground (arith, no_fail steps, clean steps)
