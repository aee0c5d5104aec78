-- ===== src/Examples/Scripted.antt =====
-- The theorems about the scripted runner, applied.
use open_cuttles.Script.Runs.Recorded.{Executed, execute-passed, Passes}
use open_cuttles.Script.Words.{IsFound, contains_loosely_iff, contains_loosely}
use open_cuttles.Go.Strings.{to_lower, codes}
use open_cuttles.Domain.{RunStatus, State, TestRun}
use open_cuttles.Go.Text.{fields}
use open_cuttles.Base.{All, length, ◌↔◌, ℕ, ◌+◌, ◌-◌, ◌≡◌, ◌<◌, [], ◌∷◌, true, false, none, refl}
use open_cuttles.Examples.{device}
use open_cuttles.Base.Int.{pos}
use open_cuttles.Go.{ok}
use open_cuttles.Script.{Stage, Test, Verb, gesture}
use open_cuttles.Script.Runs.{execute}

abbrev pub empty_run : TestRun
empty_run = record {
  id = "run";
  test_id = "t";
  test_name = "t";
  instance_id = "dev";
  status = RunStatus.running;
  passed = false;
  steps = [];
  video = "";
  error = "";
  started_at = 0;
  finished_at = none;
  cycle_run_id = "";
  case_id = "";
}

-- A device on which every operation succeeds; the state is the clock.
abbrev pub stage : Stage ℕ
stage = record {
  get_test = λ id w. (ok (record { id = id; steps = "wait" ∷ [] }), w);
  get_instance = λ id w. (ok (device State.running), w);
  create_test_run = λ test id w. (ok empty_run, w);
  update_test_run = λ run w. (ok tt, w);
  mkdir_all = λ dir w. (ok tt, w);
  write_file = λ dir name content w. (ok tt, w);
  start_recording = λ id w. (ok tt, w);
  stop_recording = λ id w. (ok "video", w);
  screenshot = λ id w. (ok "png", w + 1);
  battery_level = λ id w. (ok (pos 90), w);
  key = λ id name w. (ok tt, w);
  launch_app = λ id app w. (ok tt, w);
  tap = λ id x y w. (ok tt, w);
  swipe = λ id x1 y1 x2 y2 ms w. (ok tt, w);
  type_text = λ id text w. (ok tt, w);
  locate = λ shot target w. (ok [], w);
  query = λ shot question w. (ok "a blank page", w);
  pause = λ ms w. (ok tt, w + ms);
  pause_uncancelled = λ ms w. w + ms;
  classify = λ text. (Verb.wait, "", "");
  verb_name = λ v. "wait";
  quote = λ text. text;
  decode_config = λ shot. ok (720, 1280);
  now = λ w. w;
  elapsed_ms = λ a b. b - a;
}

abbrev waiting : Test
waiting = record { id = "t"; steps = "wait" ∷ "wait" ∷ [] }

execute-passed_example :
    ((execute stage "dir" waiting (device State.running) empty_run 0).0.error ≡ "")
    × (length (execute stage "dir" waiting (device State.running) empty_run 0).0.steps ≡ 2)
    × All Passes (execute stage "dir" waiting (device State.running) empty_run 0).0.steps
    × Executed stage "dev" "dir" 0 waiting.steps
        (execute stage "dir" waiting (device State.running) empty_run 0).0.steps
unfolding execute open_cuttles.Script.Steps.run_step
execute-passed_example =
    execute-passed stage "dir" waiting (device State.running) empty_run 0 refl refl

contains_loosely_iff_example :
    (contains_loosely (codes "The Wi-Fi page") (codes "the page") ≡ true) ↔ (
      (0 < length (fields (to_lower (codes "the page"))))
      × All (IsFound (to_lower (codes "The Wi-Fi page"))) (fields (to_lower (codes "the page"))))
contains_loosely_iff_example = contains_loosely_iff (codes "The Wi-Fi page") (codes "the page")
