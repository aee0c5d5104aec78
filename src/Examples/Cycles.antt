-- ===== src/Examples/Cycles.antt =====
-- The theorems about test cycles, applied.
use open_cuttles.Domain.{
  TestCase, StepResult, RunStatus, Platform, CycleTrigger, State, StepStatus, TestRun, TestCycle,
  CycleRun, CycleTotals,
}
use open_cuttles.Base.Int.{pos}
use open_cuttles.Scenario.Counts.{classify-pass, IsClean}
use open_cuttles.Scenario.Totals.{fresh}
use open_cuttles.Base.{
  All, ◌↔◌, str_eq, String, ℕ, ◌+◌, ◌≡◌, ◌≤◌, ◌<◌, [], ◌∷◌, if◌then◌else◌, true, false, none, refl,
}
use open_cuttles.Go.{no_rows, ok, err}
use open_cuttles.Scenario.Exclusive.{
  Reach-exclusive, Executor, Phase, Step, Reach, enter_run, initial,
}
use open_cuttles.Scenario.{Backend, run_cases}
use open_cuttles.Scenario.Verdict.{Category, classify, cycle_status}
use open_cuttles.Examples.{device}

abbrev pub step : StepStatus → StepResult
step s = record {
  index = 1;
  text = "";
  verb = "";
  target = "";
  value = "";
  x = pos 0;
  y = pos 0;
  model_out = "";
  pass = false;
  status = s;
  detail = "";
  duration_ms = 0;
  screenshot = "";
  battery = pos 0;
}

classify-pass_example :
    let verdict = classify (step StepStatus.pass ∷ []) 2 (ok "PASS") in
    ((verdict.0 ≡ Category.pass) ↔ (
      (terminal : String) × (ok "PASS" ≡ ok terminal)
      × (0 < 1)
      × (2 ≤ 1)
      × All IsClean (step StepStatus.pass ∷ [])))
    × ((verdict.1 ≡ true) ↔ (verdict.0 ≡ Category.pass))
classify-pass_example = classify-pass (step StepStatus.pass ∷ []) 2 (ok "PASS")

-- A case whose missing steps are not reported is blocked.
incomplete_case : (classify (step StepStatus.pass ∷ []) 2 (ok "PASS")).0 ≡ Category.blocked
unfolding classify
incomplete_case = refl

abbrev pub test_run : TestRun
test_run = record {
  id = "run";
  test_id = "";
  test_name = "case";
  instance_id = "dev";
  status = RunStatus.running;
  passed = false;
  steps = step StepStatus.pass ∷ [];
  video = "";
  error = "";
  started_at = 0;
  finished_at = none;
  cycle_run_id = "cycle";
  case_id = "case";
}

abbrev cycle : TestCycle
cycle = record {
  id = "c";
  name = "smoke";
  platform = Platform.android;
  build_id = "";
  environment = "";
  case_ids = "one" ∷ "two" ∷ [];
  cron = "";
  timezone = "";
  on_new_build = false;
  enabled = true;
  last_run_at = none;
  next_run_at = none;
  created_at = 0;
}

abbrev pub cycle_run : CycleRun
cycle_run = record {
  id = "cycle";
  cycle_id = "c";
  cycle_name = "smoke";
  trigger = CycleTrigger.manual;
  build_id = "";
  instance_id = "dev";
  status = RunStatus.running;
  totals = fresh 0;
  started_at = 0;
  finished_at = none;
}

abbrev log_in : String → TestCase
log_in id = record {
  id = id;
  summary = "log in";
  description = "";
  precondition = "";
  priority = "";
  status = "";
  labels = [];
  components = [];
  folder_path = "";
  steps = [];
  external_key = "";
  created_at = 0;
  updated_at = 0;
}

-- A backend that counts the agent's runs and knows the case "one" alone.
abbrev backend : Backend ℕ
backend = record {
  get_test_cycle = λ id n. (ok cycle, n);
  get_test_case = λ id n. (if str_eq id "one" then ok (log_in id) else err no_rows, n);
  get_instance = λ id n. (ok (device State.running), n);
  get_build = λ id n. (err no_rows, n);
  create_cycle_run = λ run n. (ok run, n);
  update_cycle_run = λ run n. (ok tt, n);
  create_case_run = λ run case dev n. (ok test_run, n);
  get_test_run = λ id n. (ok test_run, n);
  update_test_run = λ run n. (ok tt, n);
  mkdir_all = λ dir n. n;
  set_active = λ id n. n;
  bind_run = λ id run dir texts n. n;
  unbind_run = λ id n. n;
  install_apk = λ id path n. (ok tt, n);
  install_desktop_build = λ id build file n. (ok tt, n);
  send = λ url text n. (ok (record { status_code = 200; body = "PASS" }), n + 1);
  parse_text = λ raw. none;
  now = λ n. n;
  cycle_finished = λ run n. n;
  artifact = "/runs";
  agent_url = "http://127.0.0.1:8790";
}

abbrev both : CycleTotals
both =
    (run_cases backend (device State.running) 0 ("one" ∷ "two" ∷ [])
      (record cycle_run { totals = fresh 2 }) 0).0.totals

-- A case that is gone from the store does not fail the run.
missing_case : cycle_status both ≡ RunStatus.passed
unfolding run_cases cycle_status classify
missing_case = refl

-- Two runs for one device, the first of which has entered.
abbrev devices : ℕ → String
devices i = "dev"

abbrev entered_first : Executor
entered_first = enter_run devices 0 (initial devices)

Reach-exclusive_example :
    ((i j : ℕ)
      → entered_first.phase i ≡ Phase.holding
      → entered_first.phase j ≡ Phase.holding
      → devices i ≡ devices j
      → i ≡ j)
    × ((i : ℕ) → entered_first.phase i ≡ Phase.holding → entered_first.running (devices i) ≡ true)
    × ((d : String)
        → entered_first.running d ≡ true
        → (i : ℕ) × (entered_first.phase i ≡ Phase.holding) × (devices i ≡ d))
Reach-exclusive_example = Reach-exclusive devices (Reach.next Reach.here (Step.enter 0 refl))
