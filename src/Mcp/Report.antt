-- ===== src/Mcp/Report.antt =====
-- backend/internal/mcp/server.go: report_step_result, by which an agent records the outcome of a step.
use open_cuttles.DeviceControl.Operations
use open_cuttles.Go.{pure, branch, Exec, ◌>>◌}
use open_cuttles.Mcp.{Desk, bound_to, in_lab, in_ledger, resolve_device, BoundRun, Gear}
use open_cuttles.CaseStore.Runs.{append_step}
use open_cuttles.Base.{
  str_eq, Option, ltb, Bool, ℕ, List, String, ◌+◌, [], ◌∷◌, if◌then◌else◌, zero, suc, true, false,
  none, some,
}
use open_cuttles.Base.Int.{pos, ℤ}
use open_cuttles.Domain.{StepResult, StepStatus}
use open_cuttles.Go.Strings.{lower_case, trim_space, decimal}
use open_cuttles.Store.{Context}
use Prim.Native.String.{◌++◌ as concat}

-- Whatever is neither fail nor blocked is recorded as passed.
unfoldable pub reported_status : String → StepStatus
unfolding trim_space lower_case
reported_status status =
    let said = lower_case (trim_space status) in
    if str_eq said "fail"
    then StepStatus.fail
    else if str_eq said "blocked"
    then StepStatus.blocked
    else StepStatus.pass

abbrev pub is_pass : StepStatus → Bool
is_pass StepStatus.pass = true
is_pass _ = false

unfoldable pub nth_text : List String → ℕ → Option String
nth_text [] i = none
nth_text (t ∷ rest) zero = some t
nth_text (t ∷ rest) (suc i) = nth_text rest i

-- The text of a step by its 1-based number.
unfoldable pub step_text : List String → ℤ → String
unfolding decimal nth_text
step_text texts (pos (suc i)) = elim (nth_text texts i) [
  | some t ↦ t
  | none ↦ concat "Step " (decimal (pos (suc i)))
]
step_text texts index = concat "Step " (decimal index)

unfoldable pub reported_step : List String → ℤ → String → String → StepResult
unfolding step_text reported_status trim_space
reported_step texts index status note = record {
  index = 0;
  text = step_text texts index;
  verb = "";
  target = "";
  value = "";
  x = pos 0;
  y = pos 0;
  model_out = "";
  pass = is_pass (reported_status status);
  status = reported_status status;
  detail = trim_space note;
  duration_ms = 0;
  screenshot = "";
  battery = pos 0;
}

-- fmt.Sprintf("step-%02d.png", n)
unfoldable pub evidence_name : ℕ → String
unfolding decimal
evidence_name n =
    concat "step-" (concat (if ltb n 10 then "0" else "") (concat (decimal (pos n)) ".png"))

unfoldable pub count_report : String → List (String × BoundRun) → List (String × BoundRun)
count_report id [] = []
count_report id ((k, r) ∷ rest) =
    (if str_eq k id then (k, record r { steps = r.steps + 1 }) else (k, r)) ∷ count_report id rest

module _ (g : Gear) (ctx : Context) where
  -- The step with its screenshot, where one could be taken and written.
  unfoldable pub with_screenshot : String → BoundRun → StepResult → Desk → StepResult × Desk
  unfolding in_lab open_cuttles.DeviceControl.Operations.screenshot evidence_name
  with_screenshot id bound step s =
      let taken =
        branch (in_lab (Operations.screenshot g.bench ctx id) s) (λ e t. (step, t))
          (λ png t. (
            (if g.write_file bound.run_dir (evidence_name bound.steps) png
                then record step { screenshot = evidence_name bound.steps }
                else step),
            t,
          )) in
      if str_eq bound.run_dir "" then (step, s) else taken

  -- The number of reports of the run goes up before the screenshot is taken.
  unfoldable pub report_to : String → BoundRun → StepResult → Exec Desk Bool
  unfolding with_screenshot count_report in_ledger append_step
  report_to id bound step s =
      let (step', t) = with_screenshot id bound step (record s { runs = count_report id s.runs }) in
      (do in_ledger (append_step g.bench.database ctx bound.run_id step'); pure true) t

  unfoldable pub report_bound : String → Option BoundRun → ℤ → String → String → Exec Desk Bool
  unfolding report_to reported_step
  report_bound id none index status note = pure false
  report_bound id (some bound) index status note =
      if g.has_sink
      then report_to id bound (reported_step bound.step_texts index status note)
      else pure false

  -- Whether the report was recorded. Without a device there is none to attribute it to.
  unfoldable pub report_step_result : ℤ → String → String → Exec Desk Bool
  unfolding resolve_device report_bound bound_to
  report_step_result index status note s =
      branch (resolve_device g ctx "" s) (λ e. pure false)
        (λ id t. report_bound id (bound_to id t.runs) index status note t)
