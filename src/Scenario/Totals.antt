-- ===== src/Scenario/Totals.antt =====
-- backend/internal/scenario/cycle.go: the totals of a whole run, and what they count.
use open_cuttles.Domain.{CycleRun, CycleTotals, Instance, TestCase, TestRun}
use Prim.Native.String.{◌++◌ as concat}
use open_cuttles.Base.Int.{pos}
use open_cuttles.Go.Strings.{decimal}
use open_cuttles.Base.{
  Bool, if◌then◌else◌, length, ◌↔◌, All, String, List, ℕ, ◌+◌, ◌≡◌, ◌≤◌, ◌<◌, [], ◌∷◌, true, false,
}
use open_cuttles.Go.{Error, ok, err}
use open_cuttles.Scenario.{ask_agent, reload, Backend, run_case}
use open_cuttles.Scenario.Verdict.{Category, count}
use open_cuttles.Scenario.Counts.{IsClean}

accounted : CycleTotals → ℕ
accounted t = t.pass + t.fail + t.blocked + t.not_run

abbrev pub fresh : ℕ → CycleTotals
fresh n = record { cases = n; pass = 0; fail = 0; blocked = 0; not_run = 0 }

abbrev pub same : Category → Category → Bool
same Category.pass Category.pass = true
same Category.fail Category.fail = true
same Category.blocked Category.blocked = true
same Category.not_run Category.not_run = true
same _ _ = false

-- How often a category occurs.
abbrev pub amount : Category → List Category → ℕ
amount c [] = 0
amount c (x ∷ xs) = (if same c x then 1 else 0) + amount c xs

-- The totals are those before and the categories.
abbrev pub IsSum : CycleTotals → List Category → CycleTotals → Type 0
IsSum before cs t =
    (t.pass ≡ before.pass + amount Category.pass cs)
    × (t.fail ≡ before.fail + amount Category.fail cs)
    × (t.blocked ≡ before.blocked + amount Category.blocked cs)
    × (t.not_run ≡ before.not_run + amount Category.not_run cs)

module _ {W : Type 0} (b : Backend W) (i : Instance) where
  -- The case is stored and its run can be entered, the agent answers, and the steps that are then
  -- stored in that run are enough for the case, with none failed or blocked.
  abbrev pub IsPassed : CycleRun → ℕ → String → W → Type 0
  IsPassed run k id w =
      (tc : TestCase) × (case_run : TestRun) × (terminal : String) × (let (found, v) =
          b.get_test_case id w in
        let (made, u) = b.create_case_run run.id id i.id v in
        let conversation = concat "cyc-" (concat run.id (concat "-" (decimal (pos k)))) in
        let (answer, t) = ask_agent b tc case_run conversation i u in
        let steps = (reload b case_run t).0.steps in
        (found ≡ ok tc)
        × (made ≡ ok case_run)
        × (answer ≡ ok terminal)
        × (0 < length steps)
        × (length tc.steps ≤ length steps)
        × All IsClean steps)

  -- The case cannot be read.
  abbrev pub IsMissing : String → W → Type 0
  IsMissing id w = (e : Error) × ((b.get_test_case id w).0 ≡ err e)

  abbrev pub IsJudged : CycleRun → ℕ → String → W → Category → Type 0
  IsJudged run k id w c =
      ((c ≡ Category.pass) ↔ IsPassed run k id w) × ((c ≡ Category.not_run) ↔ IsMissing id w)

  -- One category for each case, each judged where the run has come to it.
  abbrev pub AllJudged : ℕ → List String → List Category → CycleRun → W → Type 0
  AllJudged k [] [] run w = Unit
  AllJudged k (id ∷ ids) (c ∷ cs) run w =
      let counted : CycleRun = record run { totals = count c run.totals } in
      IsJudged run k id w c
      × AllJudged (k + 1) ids cs counted (b.update_cycle_run counted (run_case b run i k id w).1).1
  AllJudged k _ _ run w = ⊥
