-- ===== src/Scenario/Verdict.antt =====
-- classifyCase: the verdict of one case from the steps that were reported.
use open_cuttles.Domain.{RunStatus, CycleTotals, StepResult, StepStatus}
use open_cuttles.Base.{
  ltb, length, Bool, ℕ, List, String, ◌+◌, ◌&&◌, ◌||◌, [], ◌∷◌, if◌then◌else◌, ◌==◌, true, false,
}
use open_cuttles.Go.{error_text, Result, ok, err}
use open_cuttles.Go.Strings.{codes, to_lower, contains, decimal}
use open_cuttles.Base.Int.{pos}
use Prim.Native.String.{◌++◌ as concat}

pub data Category : Type 0 where
  pass fail blocked not_run : Category

is_fail : StepStatus → Bool
is_fail StepStatus.fail = true
is_fail _ = false

is_blocked : StepStatus → Bool
is_blocked StepStatus.blocked = true
is_blocked _ = false

unfoldable pub has_fail : List StepResult → Bool
unfolding is_fail
has_fail [] = false
has_fail (s ∷ rest) = is_fail s.status || has_fail rest

unfoldable pub has_blocked : List StepResult → Bool
unfolding is_blocked
has_blocked [] = false
has_blocked (s ∷ rest) = is_blocked s.status || has_blocked rest

says_failure : String → Bool
unfolding contains to_lower codes
says_failure terminal =
    let low = to_lower (codes terminal) in
    contains low (codes "fail") || contains low (codes "block") || contains low (codes "could not")

unverified : String → Category × Bool × String
unfolding says_failure
unverified terminal =
    if says_failure terminal
    then (Category.fail, false, "no per-step results reported; agent summary indicated failure")
    else (Category.blocked, false, "no per-step results reported; case could not be verified")

incomplete : ℕ → ℕ → String
unfolding decimal
incomplete got expected =
    concat "incomplete: " (
      concat (decimal (pos got))
        (concat " of " (concat (decimal (pos expected)) " steps verified")))

-- The verdict, the pass flag and the detail.
unfoldable pub classify : List StepResult → ℕ → Result String → Category × Bool × String
unfolding has_fail has_blocked unverified incomplete
classify steps expected (err e) = (Category.fail, false, error_text e)
classify steps expected (ok terminal) =
    if has_fail steps
    then (Category.fail, false, "")
    else if length steps == 0
    then unverified terminal
    else if ltb 0 expected && ltb (length steps) expected
    then (Category.blocked, false, incomplete (length steps) expected)
    else if has_blocked steps
    then (Category.blocked, false, "")
    else (Category.pass, true, "")

-- One more case of a category in a run's totals.
unfoldable pub count : Category → CycleTotals → CycleTotals
count Category.pass t = record t { pass = t.pass + 1 }
count Category.blocked t = record t { blocked = t.blocked + 1 }
count Category.not_run t = record t { not_run = t.not_run + 1 }
count Category.fail t = record t { fail = t.fail + 1 }

-- The status of the whole run.
unfoldable pub cycle_status : CycleTotals → RunStatus
cycle_status t = if ltb 0 t.fail || ltb 0 t.blocked then RunStatus.failed else RunStatus.passed
