-- ===== src/Examples/Desk.antt =====
-- The theorems about the stored runs and the tools of the agent, applied.
use open_cuttles.Base.{
  str_eq, not, ℕ, ◌+◌, ◌*◌, ◌≡◌, ◌≢◌, ◌<◌, ◌&&◌, ◌⊎◌, [], ◌∷◌, true, false, none, refl, arith,
}
use open_cuttles.Go.{ok, err, message}
use open_cuttles.CaseStore.{Archive, Ledger}
use open_cuttles.Mcp.{Gear, Desk}
use open_cuttles.Mcp.Tools.{Tool}
use open_cuttles.Domain.{TestRun, RunStatus}
use open_cuttles.Examples.Control.{bench, lab, handset}
use open_cuttles.Examples.Cycles.{cycle_run}
use open_cuttles.Examples.Services.{nightly}
use open_cuttles.CaseStore.Cycles.{is_due, is_in_flight}
use open_cuttles.CaseStore.Due.{is_due-whole_second}
use open_cuttles.Mcp.Reached.{Reached}
use open_cuttles.Mcp.Reported.{report_step_result-Recorded, Recorded}
use open_cuttles.Base.Int.{pos}

abbrev case_run : TestRun
case_run = record {
  id = "run";
  test_id = "";
  test_name = "";
  instance_id = "dev";
  status = RunStatus.running;
  passed = false;
  steps = [];
  video = "";
  error = "";
  started_at = 0;
  finished_at = none;
  cycle_run_id = "cycle";
  case_id = "one";
}

abbrev archive : Archive
archive = record {
  cases = [];
  folders = [];
  cycles = nightly ∷ [];
  cycle_runs = cycle_run ∷ [];
  tests = [];
  test_runs = case_run ∷ [];
  builds = [];
}

abbrev ledger : Ledger
ledger = record { world = (lab handset).world; archive = archive }

abbrev gear : Gear
gear = record {
  bench = bench;
  vision = none;
  vqa = none;
  has_sink = true;
  decode_config = λ png. ok (720, 1280);
  unmarshal = λ s. err (message "no tree");
  write_file = λ dir name png. true;
  quote = λ s. s;
}

-- The handset is active and bound to the run of a case with one step.
abbrev desk : Desk
desk = record {
  lab = lab handset;
  archive = archive;
  active = "dev";
  runs =
      ("dev", record { run_id = "run"; run_dir = ""; steps = 0; step_texts = "log in" ∷ [] }) ∷ [];
}

abbrev tap_corner : Tool
tap_corner = Tool.tap "" (pos 3) (pos 4)

is_due-whole_second_example :
    (0 < 500 → is_due (0 * 1000 + 500) archive nightly ≡ false)
    × ((m : ℕ)
        → 0 < m
        → is_due (m * 1000 + 500) archive nightly
          ≡ (nightly.enabled && not (str_eq nightly.cron ""))
            && not (is_in_flight archive.cycle_runs nightly.id))
is_due-whole_second_example = is_due-whole_second nightly archive 0 refl 500 (omega arith)

report_step_result-Recorded_example :
    ((open_cuttles.Mcp.Report.report_step_result gear none (pos 1) "failed" "no button" desk).0
        ≢ ok true)
      × ((open_cuttles.Mcp.Report.report_step_result gear none
            (pos 1)
            "failed"
            "no button"
            desk).1.archive
          ≡ archive)
    ⊎ (((open_cuttles.Mcp.Report.report_step_result gear none (pos 1) "failed" "no button" desk).0
          ≡ ok true)
        × Recorded
            (pos 1)
            "failed"
            "no button"
            desk
            (open_cuttles.Mcp.Report.report_step_result gear none
              (pos 1)
              "failed"
              "no button"
              desk).1)
report_step_result-Recorded_example =
    report_step_result-Recorded gear none (pos 1) "failed" "no button" desk
