-- ===== src/Scenario.antt =====
-- backend/internal/scenario/cycle.go: CycleExecutor, which runs a test cycle one case at a time.
-- The store, the MCP binder, the device services, the HTTP client and the notifier are interfaces
-- there too: a backend over any state `W`.
pub mod Verdict
pub mod Counts
pub mod Totals
pub mod Exclusive
use open_cuttles.Go.{raise, branch, message, Result, pure, Error, Exec, ◌>>=◌, ◌>>◌}
use open_cuttles.Domain.{
  CycleTotals, Build, Instance, TestStep, RunStatus, CycleTrigger, TestCase, CycleRun, TestRun,
  TestCycle, Platform,
}
use open_cuttles.Base.{
  Option, map, length, str_eq, List, leb, Bool, ℕ, String, ◌+◌, [], ◌∷◌, if◌then◌else◌, none, some,
}
use open_cuttles.Base.Int.{pos}
use open_cuttles.Go.Strings.{decimal, trim_space}
use open_cuttles.Scenario.Verdict.{count, cycle_status, Category, classify}
use Prim.Native.String.{◌++◌ as concat}

pub record Response : Type 0 where
  pub status_code : ℕ
  pub body : String

-- `parse_text` is json.Unmarshal of result.text; `send` is http.Client.Do with the JSON message.
pub record Backend (W : Type 0) : Type 0 where
  pub get_test_cycle : String → Exec W TestCycle
  pub get_test_case : String → Exec W TestCase
  pub get_instance : String → Exec W Instance
  pub get_build : String → Exec W Build
  pub create_cycle_run : CycleRun → Exec W CycleRun
  pub update_cycle_run : CycleRun → Exec W Unit
  pub create_case_run : String → String → String → Exec W TestRun
  pub get_test_run : String → Exec W TestRun
  pub update_test_run : TestRun → Exec W Unit
  pub mkdir_all : String → W → W
  pub set_active : String → W → W
  pub bind_run : String → String → String → List String → W → W
  pub unbind_run : String → W → W
  pub install_apk : String → String → Exec W Unit
  pub install_desktop_build : String → String → String → Exec W Unit
  pub send : String → String → Exec W Response
  pub parse_text : String → Option String
  pub now : W → ℕ
  pub cycle_finished : CycleRun → W → W
  pub artifact : String
  pub agent_url : String

-- An error that the caller drops.
abbrev pub ignore : {W A : Type 0} → Exec W A → W → W
ignore m w = (m w).1

unfoldable pub agent_error : ℕ → String → Error
agent_error status raw =
    message
      (concat "agent run failed: " (concat (decimal (pos status)) (concat ": " (trim_space raw))))

unfoldable pub reply_text : {W : Type 0} → Backend W → String → String
reply_text b raw = elim (b.parse_text raw) [
  | some text ↦ if str_eq text "" then raw else text
  | none ↦ raw
]

prompt_line : ℕ → TestStep → String
prompt_line n s =
    let action = concat (decimal (pos n)) (concat ". " (trim_space s.action)) in
    let input =
      if str_eq (trim_space s.test_data) ""
      then ""
      else concat "  [data: " (concat (trim_space s.test_data) "]") in
    let expected =
      if str_eq (trim_space s.expected) ""
      then ""
      else concat "  → expected: " (trim_space s.expected) in
    concat action (concat input (concat expected "\n"))

prompt_lines : ℕ → List TestStep → String
unfolding prompt_line
prompt_lines n [] = ""
prompt_lines n (s ∷ rest) = concat (prompt_line n s) (prompt_lines (n + 1) rest)

unfoldable pub render_case_prompt : TestCase → String
unfolding prompt_lines
render_case_prompt tc =
    let intro : String =
      "You are running an AUTOMATED test case on the active device. Execute each step in order, then verify its Expected Result before moving on.\n\n" in
    let title = concat "Test case: " (concat tc.summary "\n") in
    let before =
      if str_eq (trim_space tc.precondition) ""
      then ""
      else concat "Precondition: " (concat tc.precondition "\n") in
    let ending : String =
      "\nFor EACH numbered step: perform the action, verify its Expected Result on screen, then call report_step_result with that step's 1-based index, a status of \"pass\" / \"fail\" / \"blocked\", and a short note of what you observed. If a step's expected result cannot be achieved, report it \"fail\" and stop. When finished, reply with a single line: PASS or FAIL and one sentence why." in
    concat intro
      (concat title (concat before (concat "\nSteps:\n" (concat (prompt_lines 1 tc.steps) ending))))

module _ {W : Type 0} (b : Backend W) where
  unfoldable pub call_agent : String → String → Exec W String
  unfolding ◌>>=◌ agent_error reply_text
  call_agent conversation text = do
    response ←
        b.send
          (concat b.agent_url (concat "/agents/opencuttles/" (concat conversation "?wait=result")))
          text
    (if leb 400 response.status_code
        then raise (agent_error response.status_code response.body)
        else pure (reply_text b response.body))

  unfoldable pub install_build : Instance → String → W → W
  install_build i build_id w =
      branch (b.get_build build_id w) (λ e v. v)
        λ build v. elim i.platform [
          | Platform.unset ↦ ignore (b.install_apk i.id build.path) v
          | Platform.android ↦ ignore (b.install_apk i.id build.path) v
          | _ ↦ ignore (b.install_desktop_build i.id build.id build.filename) v
        ]

  -- The run as it is persisted when the cycle ends, and what the notifier is told.
  unfoldable pub finish_cycle : CycleRun → RunStatus → W → W
  finish_cycle run status w =
      let done = record run { finished_at = some (b.now w); status = status } in
      b.cycle_finished done (ignore (b.update_cycle_run done) w)

  -- The agent's turn, with the device bound to the case run for its length.
  unfoldable pub ask_agent : TestCase → TestRun → String → Instance → W → Result String × W
  unfolding call_agent render_case_prompt
  ask_agent tc case_run conversation i w =
      let dir = concat b.artifact (concat "/" case_run.id) in
      let bound =
        b.bind_run i.id case_run.id dir (map (λ s. s.action) tc.steps)
          (b.set_active i.id (b.mkdir_all dir w)) in
      let (answer, v) = call_agent conversation (render_case_prompt tc) bound in
      (answer, b.unbind_run i.id v)

  unfoldable pub reload : TestRun → W → TestRun × W
  reload case_run w =
      branch (b.get_test_run case_run.id w) (λ e v. (case_run, v)) (λ fresh v. (fresh, v))

  unfoldable pub verdict_run : TestRun → Bool → String → ℕ → TestRun
  verdict_run case_run passed detail now = record case_run {
    finished_at = some now;
    passed = passed;
    status = if passed then RunStatus.passed else RunStatus.failed;
    error = if str_eq detail "" then case_run.error else detail;
  }

  unfoldable pub record_case : TestCase → TestRun → String → Instance → W → Category × W
  unfolding ask_agent reload verdict_run
  record_case tc case_run conversation i w =
      let (answer, v) = ask_agent tc case_run conversation i w in
      let (fresh, u) = reload case_run v in
      let (category, passed, detail) = classify fresh.steps (length tc.steps) answer in
      (category, ignore (b.update_test_run (verdict_run fresh passed detail (b.now u))) u)

  unfoldable pub run_case : CycleRun → Instance → ℕ → String → W → Category × W
  unfolding record_case
  run_case run i index case_id w =
      branch (b.get_test_case case_id w) (λ e v. (Category.not_run, v))
        λ tc v.
          branch (b.create_case_run run.id case_id i.id v) (λ e u. (Category.fail, u))
            λ case_run u.
              record_case tc case_run
                (concat "cyc-" (concat run.id (concat "-" (decimal (pos index))))) i u

  -- The loop over the cases; the context is Background, so it is never cancelled.
  unfoldable pub run_cases : Instance → ℕ → List String → CycleRun → W → CycleRun × W
  unfolding run_case count
  run_cases i index [] run w = (run, w)
  run_cases i index (case_id ∷ rest) run w =
      let (category, v) = run_case run i index case_id w in
      let counted = record run { totals = count category run.totals } in
      run_cases i (index + 1) rest counted (ignore (b.update_cycle_run counted) v)

  unfoldable pub run_cycle : TestCycle → CycleRun → Instance → W → W
  unfolding run_cases finish_cycle cycle_status install_build
  run_cycle cycle run i w =
      let prepared = if str_eq run.build_id "" then w else install_build i run.build_id w in
      let totals : CycleTotals = record {
        cases = length cycle.case_ids;
        pass = 0;
        fail = 0;
        blocked = 0;
        not_run = 0;
      } in
      let (done, v) = run_cases i 0 cycle.case_ids (record run { totals = totals }) prepared in
      finish_cycle done (cycle_status done.totals) v

  -- What `execute` does once it holds the device.
  unfoldable pub use_device : TestCycle → CycleRun → String → W → W
  unfolding run_cycle finish_cycle
  use_device cycle run instance_id w =
      branch (b.get_instance instance_id w) (λ e v. finish_cycle run RunStatus.failed v)
        (λ i v. run_cycle cycle run i v)

  -- The synchronous part of Start; `execute` follows in a goroutine.
  unfoldable pub start :
      String → String → CycleTrigger → String → CycleRun → Exec W (TestCycle × CycleRun)
  unfolding ◌>>=◌
  start cycle_id instance_id trigger build_id blank = do
    cycle ← b.get_test_cycle cycle_id
    i ← b.get_instance instance_id
    run ← b.create_cycle_run (record blank {
      cycle_id = cycle.id;
      trigger = trigger;
      build_id = build_id;
      instance_id = instance_id;
    })
    pure (cycle, record run { cycle_name = cycle.name })
