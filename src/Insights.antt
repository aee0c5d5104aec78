-- ===== src/Insights.antt =====
-- backend/internal/insights/insights.go: the health of one case from its runs, in the order that
-- sorting by start time leaves them.
pub mod Health
use open_cuttles.Base.{
  drop, not, str_eq, ltb, leb, ◌/◌, length, String, ℕ, List, Option, Bool, ◌+◌, ◌-◌, ◌*◌, ◌≡◌, ◌≢◌,
  ◌≤◌, ◌<◌, ◌&&◌, ◌||◌, ◌⊎◌, ◌∙◌, inl, inr, [], ◌∷◌, ◌++◌, if◌then◌else◌, ◌==◌, zero, suc, true,
  false, none, some, refl, sym, ap, arith,
}
use open_cuttles.Domain.{StepResult, StepStatus, TestRun}
use open_cuttles.Go.{◌>>=◌, ◌>>◌, ok, err}

pub record HistoryPoint : Type 0 where
  pub run_id : String
  pub cycle_run_id : String
  pub status : StepStatus
  pub started_at : ℕ
  pub duration_ms : ℕ

-- The pass rate is `pass` over `runs`, which the record has.
pub record CaseHealth : Type 0 where
  pub case_id : String
  pub summary : String
  pub runs : ℕ
  pub pass : ℕ
  pub fail : ℕ
  pub blocked : ℕ
  pub flips : ℕ
  pub flaky : Bool
  pub last_status : Option StepStatus
  pub avg_ms : ℕ
  pub history : List HistoryPoint

abbrev pub max_history : ℕ
max_history = 20

is_fail : StepStatus → Bool
is_fail StepStatus.fail = true
is_fail _ = false

any_fail : List StepResult → Bool
unfolding is_fail
any_fail [] = false
any_fail (s ∷ rest) = is_fail s.status || any_fail rest

-- What is neither passed nor failed is blocked: the last three returns of runStatus.
unfoldable pub run_status : TestRun → StepStatus
unfolding any_fail
run_status r =
    if r.passed
    then StepStatus.pass
    else if any_fail r.steps
    then StepStatus.fail
    else StepStatus.blocked

same_status : StepStatus → StepStatus → Bool
same_status StepStatus.pass StepStatus.pass = true
same_status StepStatus.fail StepStatus.fail = true
same_status StepStatus.blocked StepStatus.blocked = true
same_status _ _ = false

-- What the loop over the runs carries; `prev` is none before the first run.
pub record Tally : Type 0 where
  pub pass : ℕ
  pub fail : ℕ
  pub blocked : ℕ
  pub flips : ℕ
  pub prev : Option StepStatus
  pub total_ms : ℕ
  pub summary : String
  pub history : List HistoryPoint

unfoldable pub count_status : StepStatus → Tally → Tally
count_status StepStatus.pass t = record t { pass = t.pass + 1 }
count_status StepStatus.blocked t = record t { blocked = t.blocked + 1 }
count_status _ t = record t { fail = t.fail + 1 }

unfoldable pub is_flip : Option StepStatus → StepStatus → Bool
unfolding same_status
is_flip none s = false
is_flip (some p) s = not (same_status p s)

-- The clamped duration: subtraction stops at 0.
unfoldable pub duration : TestRun → ℕ
duration r = elim r.finished_at [ none ↦ 0 | some t ↦ t - r.started_at ]

unfoldable pub point : TestRun → HistoryPoint
unfolding run_status duration
point r = record {
  run_id = r.id;
  cycle_run_id = r.cycle_run_id;
  status = run_status r;
  started_at = r.started_at;
  duration_ms = duration r;
}

unfoldable pub tally_run : TestRun → Tally → Tally
unfolding count_status is_flip point run_status duration
tally_run r t =
    let s = run_status r in
    let counted = count_status s t in
    record counted {
      flips = if is_flip t.prev s then t.flips + 1 else t.flips;
      prev = some s;
      total_ms = t.total_ms + duration r;
      summary = if str_eq r.test_name "" then t.summary else r.test_name;
      history = t.history ++ point r ∷ [];
    }

unfoldable pub tally : List TestRun → Tally → Tally
unfolding tally_run
tally [] t = t
tally (r ∷ rest) t = tally rest (tally_run r t)

unfoldable pub window : List TestRun → List TestRun
window runs = if ltb max_history (length runs) then drop (length runs - max_history) runs else runs

abbrev pub empty_tally : Tally
empty_tally = record {
  pass = 0;
  fail = 0;
  blocked = 0;
  flips = 0;
  prev = none;
  total_ms = 0;
  summary = "";
  history = [];
}

unfoldable pub is_flaky : Tally → Bool
is_flaky t = leb 2 t.flips && (ltb 0 t.pass && ltb 0 (t.fail + t.blocked))

unfoldable pub average : ℕ → ℕ → ℕ
average total zero = 0
average total (suc n) = total / suc n

unfoldable pub case_health : String → List TestRun → CaseHealth
unfolding tally window is_flaky average
case_health case_id runs =
    let recent = window runs in
    let t = tally recent empty_tally in
    record {
      case_id = case_id;
      summary = t.summary;
      runs = length recent;
      pass = t.pass;
      fail = t.fail;
      blocked = t.blocked;
      flips = t.flips;
      flaky = is_flaky t;
      last_status = t.prev;
      avg_ms = average t.total_ms (length recent);
      history = t.history;
    }
