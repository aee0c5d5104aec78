-- ===== src/Script/Runs.antt =====
-- backend/internal/scenario/runner.go: Start, execute and finish, and what a run has recorded.
pub mod Recorded
pub mod Swipes
use open_cuttles.Go.{message, raise, branch, Exec, error_text, ◌>>=◌, ◌>>◌, ok, err}
use open_cuttles.Script.Steps.{run_step}
use open_cuttles.Base.{
  List, ℕ, str_eq, String, Bool, ◌+◌, ◌-◌, ◌*◌, ◌≡◌, ◌≢◌, ◌≤◌, ◌<◌, ◌&&◌, ◌||◌, ◌⊎◌, ◌∙◌, inl, inr,
  [], ◌∷◌, ◌++◌, if◌then◌else◌, ◌==◌, zero, suc, true, false, none, some, refl, sym, ap, arith,
}
use open_cuttles.Domain.{RunStatus, Instance, TestRun}
use open_cuttles.DeviceControl.Drivers.{is_android}
use open_cuttles.DeviceControl.{is_running}
use Prim.Native.String.{◌++◌ as concat}
use open_cuttles.Script.{Stage, Test}

-- How the loop over the steps ends.
pub data Ending : Type 0 where
  completed stopped timed_out : Ending

module _ {W : Type 0} (s : Stage W) where
  -- The steps from the one with this index on.
  unfoldable pub run_steps : String → String → ℕ → List String → TestRun → W → Ending × TestRun × W
  run_steps id dir i [] run w = (Ending.completed, run, w)
  run_steps id dir i (text ∷ rest) run w =
      let (result, v) = run_step s id i text dir w in
      let run' = record run { steps = run.steps ++ result ∷ [] } in
      let u = (s.update_test_run run' v).1 in
      let later =
        branch (s.pause 1200 u) (λ e t. (Ending.timed_out, run', t))
          (λ _ t. run_steps id dir (suc i) rest run' t) in
      if result.pass then later else (Ending.stopped, run', u)

  unfoldable pub finish : TestRun → Bool → String → W → TestRun × W
  finish run passed reason w =
      let good = passed && str_eq reason "" in
      let run' = record run {
        finished_at = some (s.now w);
        passed = good;
        error = reason;
        status = if good then RunStatus.passed else RunStatus.failed;
      } in
      (run', (s.update_test_run run' w).1)

  -- The video of a recording that could be stopped and written.
  unfoldable pub with_video : Bool → String → String → TestRun → W → TestRun × W
  with_video false id dir run w = (run, w)
  with_video true id dir run w =
      branch (s.stop_recording id w) (λ e v. (run, v))
        (λ video v.
          branch (s.write_file dir "session.mp4" video v) (λ e u. (run, u))
            (λ _ u. (record run { video = "session.mp4" }, u)))

  unfoldable pub conclude_run : String → String → Bool → Ending × TestRun × W → TestRun × W
  unfolding finish with_video
  conclude_run id dir recording (Ending.timed_out, run, w) = finish run false "run timed out" w
  conclude_run id dir recording (Ending.stopped, run, w) =
      let (run', v) = with_video recording id dir run w in finish run' false "" v
  conclude_run id dir recording (Ending.completed, run, w) =
      let (run', v) = with_video recording id dir run w in finish run' true "" v

  unfoldable pub recorded_from : Instance → W → Bool × W
  unfolding is_android
  recorded_from i w =
      if is_android i.platform
      then branch (s.start_recording i.id w) (λ e v. (false, v)) (λ _ v. (true, v))
      else (false, w)

  -- `dir` is the run's directory under the artifact root.
  unfoldable pub execute : String → Test → Instance → TestRun → W → TestRun × W
  unfolding run_steps finish conclude_run recorded_from error_text
  execute dir test i run w =
      branch (s.mkdir_all dir w)
        (λ e. finish run false (concat "create artifact dir: " (error_text e)))
        (λ _ v.
          let (recording, u) = recorded_from i v in
          conclude_run i.id dir recording (run_steps i.id dir 0 test.steps run u))

  -- Start: the run whose goroutine is `execute`.
  unfoldable pub start : String → String → Exec W TestRun
  start test_id instance_id = do
    test ← s.get_test test_id
    i ← s.get_instance instance_id
    (if is_running i.state
        then s.create_test_run test.id i.id
        else raise (message (concat "instance " (concat i.name " is not running"))))
