-- ===== src/Insights/Health.antt =====
-- What the numbers of a case's health say of one another.
use open_cuttles.Insights.{
  any_fail, is_fail, point, Tally, tally, tally_run, count_status, is_flip, window, case_health,
  is_flaky, max_history, empty_tally, run_status,
}
use open_cuttles.Domain.{StepStatus, StepResult, TestRun}
use open_cuttles.Base.{
  any, keep, drop, not, ltb, Bool, Bool-cases, true, false, ◌&&◌, ◌∙◌, ap, inl, inr, if◌then◌else◌,
  ◌∷◌, length-append, length-drop, String, length, ℕ, Option, List, ◌+◌, ◌-◌, ◌≡◌, ◌≤◌, ◌<◌, ◌⊎◌,
  [], none, some, refl, arith,
}

seen : Tally → ℕ
seen t = t.pass + t.fail + t.blocked

started : Option StepStatus → ℕ
started none = 0
started (some s) = 1

counted :
    (s : StepStatus) (t : Tally)
    → (seen (count_status s t) ≡ seen t + 1) × ((count_status s t).flips ≡ t.flips)
unfolding seen count_status
counted s t = ground arith

-- A run is counted once, and flips at most where a run came before it.
tally_run-counts :
    (r : TestRun) (t : Tally)
    → (seen (tally_run r t) ≡ seen t + 1)
      × ((tally_run r t).flips ≤ t.flips + started t.prev)
      × (length (tally_run r t).history ≡ length t.history + 1)
unfolding tally_run seen started is_flip
tally_run-counts r t =
    ground (arith, counted (run_status r) t, length-append t.history (point r ∷ []))

prev_set : (r : TestRun) (t : Tally) → started (tally_run r t).prev ≡ 1
unfolding tally_run started
prev_set r t = refl

tally-counts :
    (runs : List TestRun) (t : Tally)
    → (seen (tally runs t) ≡ seen t + length runs)
      × ((tally runs t).flips ≤ t.flips + (length runs + started t.prev - 1))
      × (length (tally runs t).history ≡ length t.history + length runs)
unfolding tally
tally-counts [] t = ground arith
tally-counts (r ∷ rest) t =
    ground (arith, tally-counts rest (tally_run r t), tally_run-counts r t, prev_set r t)

window-short :
    (runs : List TestRun)
    → (length (window runs) ≤ 20) × ((length runs ≤ 20) ⊎ (length (window runs) ≡ 20))
unfolding window
window-short runs = ground (arith, length-drop (length runs - max_history) runs)

abbrev is_failure : StepStatus → Bool
is_failure StepStatus.fail = true
is_failure _ = false

-- A run that did not pass and has a step that failed.
abbrev pub has_failed : TestRun → Bool
has_failed r = not r.passed && any (λ (s : StepResult). is_failure s.status) r.steps

-- A run that did not pass and has no such step.
abbrev pub is_undecided : TestRun → Bool
is_undecided r = not r.passed && not (any (λ (s : StepResult). is_failure s.status) r.steps)

any_fail-any :
    (steps : List StepResult) → any_fail steps ≡ any (λ (s : StepResult). is_failure s.status) steps
unfolding any_fail is_fail
any_fail-any [] = refl
any_fail-any (s ∷ rest) = ground (arith, any_fail-any rest)

tally_run-by_status :
    (r : TestRun) (t : Tally)
    → let u = tally_run r t in
      (u.pass ≡ t.pass + (if r.passed then 1 else 0))
      × (u.fail ≡ t.fail + (if has_failed r then 1 else 0))
      × (u.blocked ≡ t.blocked + (if is_undecided r then 1 else 0))
unfolding tally_run run_status count_status
tally_run-by_status r t = ground (arith, any_fail-any r.steps)

keep-step :
    (p : TestRun → Bool) (r : TestRun) (rest : List TestRun)
    → length (keep p (r ∷ rest)) ≡ (if p r then 1 else 0) + length (keep p rest)
keep-step p r rest = elim (Bool-cases (p r)) [
  | inl e ↦ rw e (omega arith)
  | inr e ↦ rw e (omega arith)
]

tally-by_status :
    (runs : List TestRun) (t : Tally)
    → let u = tally runs t in
      (u.pass ≡ t.pass + length (keep (λ (r : TestRun). r.passed) runs))
      × (u.fail ≡ t.fail + length (keep has_failed runs))
      × (u.blocked ≡ t.blocked + length (keep is_undecided runs))
unfolding tally
tally-by_status [] t = (omega arith, omega arith, omega arith)
tally-by_status (r ∷ rest) t =
    let (a, b, c) = tally-by_status rest (tally_run r t) in
    let (d, e, f) = tally_run-by_status r t in
    (
      omega (arith, a, d, keep-step (λ (x : TestRun). x.passed) r rest),
      omega (arith, b, e, keep-step has_failed r rest),
      omega (arith, c, f, keep-step is_undecided r rest),
    )

drop-none : (n : ℕ) (runs : List TestRun) → n ≡ 0 → runs ≡ drop n runs
drop-none n runs h = rw h refl

window-last : (runs : List TestRun) → window runs ≡ drop (length runs - 20) runs
unfolding window
window-last runs = elim (Bool-cases (ltb 20 (length runs))) [
  | inl e ↦ rw e refl
  | inr e ↦ rw e (drop-none (length runs - 20) runs (ground arith))
]

zeroth : (n : ℕ) → 0 + n ≡ n
zeroth n = omega arith

counted_once :
    (id : String) (runs : List TestRun)
    → let h = case_health id runs in
      (h.runs ≤ 20)
      × (h.pass + h.fail + h.blocked ≡ h.runs)
      × (length h.history ≡ h.runs)
      × (h.flips ≤ h.runs - 1)
      × (h.flaky ≡ true → (3 ≤ h.runs) × (0 < h.pass) × (0 < h.fail + h.blocked))
unfolding case_health is_flaky seen started
counted_once id runs = ground (arith, window-short runs, tally-counts (window runs) empty_tally)

-- The health of a case covers its last 20 runs, or all where there are fewer: each is
-- one point of the history, and is counted once: as passed if it passed, else as failed if a step of
-- it failed, else as blocked. There are fewer flips than runs, and a flaky case has at least three
-- runs, one that passed and one that did not.
pub case_health-counts :
    (id : String) (runs : List TestRun)
    → let h = case_health id runs in
      let last = drop (length runs - 20) runs in
      (h.runs ≡ length last)
      × (h.pass ≡ length (keep (λ (r : TestRun). r.passed) last))
      × (h.fail ≡ length (keep has_failed last))
      × (h.blocked ≡ length (keep is_undecided last))
      × (h.runs ≤ 20)
      × (h.pass + h.fail + h.blocked ≡ h.runs)
      × (length h.history ≡ h.runs)
      × (h.flips ≤ h.runs - 1)
      × (h.flaky ≡ true → (3 ≤ h.runs) × (0 < h.pass) × (0 < h.fail + h.blocked))
unfolding case_health is_flaky seen started
case_health-counts id runs =
    let same = window-last runs in
    let (short, sum, points, flips, flaky) = counted_once id runs in
    let (passes, fails, blocks) = tally-by_status (window runs) empty_tally in
    (
      ap length same,
      passes ∙ zeroth _ ∙ ap (λ l. length (keep (λ (r : TestRun). r.passed) l)) same,
      fails ∙ zeroth _ ∙ ap (λ l. length (keep has_failed l)) same,
      blocks ∙ zeroth _ ∙ ap (λ l. length (keep is_undecided l)) same,
      short,
      sum,
      points,
      flips,
      flaky,
    )
