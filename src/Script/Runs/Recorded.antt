-- ===== src/Script/Runs/Recorded.antt =====
-- What a scripted run has recorded when it ends.
use open_cuttles.Script.Steps.{run_step, act, failed}
use open_cuttles.Script.{Verb, Stage, Test}
use open_cuttles.Base.{
  ◌≢◌, subst, Bool, Bool-cases, All, length, ℕ, List, String, ◌≡◌, ◌≤◌, ◌∙◌, inl, inr, [], ◌∷◌,
  ◌++◌, suc, true, false, refl, sym, ap, arith,
}
use open_cuttles.Go.{error_text, branch, Result, ok, err}
use open_cuttles.Script.Runs.{
  recorded_from, with_video, Ending, run_steps, execute, finish, conclude_run,
}
use Prim.Native.String.{◌++◌ as concat}
use open_cuttles.Domain.{RunStatus, Instance, TestRun, StepResult}
use open_cuttles.Go.Laws.{Result-cases}
use mathlib.Core.List.{append-nil, append_assoc}

abbrev pub Passes : StepResult → Type 0
Passes r = r.pass ≡ true

module _ {W : Type 0} (s : Stage W) (id dir : String) where
  -- Each step was run, from the one with this index on, and its verb was understood.
  abbrev pub Executed : ℕ → List String → List StepResult → Type 0
  Executed i [] [] = Unit
  Executed i (text ∷ steps) (r ∷ rs) =
      ((w : W) × (r ≡ (run_step s id i text dir w).0))
      × ((s.classify text).0 ≢ Verb.unknown)
      × Executed (suc i) steps rs
  Executed i _ _ = ⊥

  -- The results that a loop over these steps adds, by how it ends.
  abbrev pub Recorded : ℕ → Ending → List String → List StepResult → Type 0
  Recorded i Ending.completed steps rs =
      (length rs ≡ length steps) × All Passes rs × Executed i steps rs
  Recorded i Ending.timed_out steps rs = (length rs ≤ length steps) × All Passes rs
  Recorded i Ending.stopped steps rs =
      (length rs ≤ length steps)
      × (good : List StepResult) × (bad : StepResult) × (rs ≡ good ++ bad ∷ [])
      × All Passes good
      × (bad.pass ≡ false)

  run_step-understood :
      (i : ℕ) (text : String) (w : W)
      → (run_step s id i text dir w).0.pass ≡ true
      → (s.classify text).0 ≢ Verb.unknown
  unfolding run_step act failed
  run_step-understood i text w p u = elim (Result-cases (s.screenshot id w).0) [
    | inr (e, h) ↦ cc (rw (run_step, h) at p)
    | inl (shot, h) ↦ cc (rw (run_step, h, u) at p)
  ]

  one_more :
      (i : ℕ) (ending : Ending) (text : String) (steps : List String) (w : W) (rs : List StepResult)
      → (run_step s id i text dir w).0.pass ≡ true
      → Recorded (suc i) ending steps rs
      → Recorded i ending (text ∷ steps) ((run_step s id i text dir w).0 ∷ rs)
  one_more i Ending.completed text steps w rs e (n, a, x) =
      (ap suc n, (e, a), ((w, refl), run_step-understood i text w e, x))
  one_more i Ending.timed_out text steps w rs e (n, a) = (omega (arith, n), (e, a))
  one_more i Ending.stopped text steps w rs e (n, good, bad, h, a, b) = (
    omega (arith, n),
    (run_step s id i text dir w).0 ∷ good,
    bad,
    ap (λ l. (run_step s id i text dir w).0 ∷ l) h,
    (e, a),
    b,
  )

  run_steps-Recorded :
      (i : ℕ) (steps : List String) (run : TestRun) (w : W)
      → let (ending, run', v) = run_steps s id dir i steps run w in
        (rs : List StepResult) × (run'.steps ≡ run.steps ++ rs) × Recorded i ending steps rs
  unfolding run_steps
  run_steps-Recorded i [] run w = ([], sym (append-nil run.steps), (refl, tt, tt))
  run_steps-Recorded i (text ∷ rest) run w =
      let result = (run_step s id i text dir w).0 in
      let run' = record run { steps = run.steps ++ result ∷ [] } in
      let u = (s.update_test_run run' (run_step s id i text dir w).1).1 in
      elim (Bool-cases result.pass) [
        | inr e ↦ rw (e, run_steps) (result ∷ [], refl, (omega arith, [], result, refl, tt, e))
        | inl e ↦ elim (Result-cases (s.pause 1200 u).0) [
          | inr (x, f) ↦ rw (e, f, run_steps) (result ∷ [], refl, (omega arith, (e, tt)))
          | inl (x, f) ↦
              let t = (s.pause 1200 u).1 in
              let (rs, h, recorded) = run_steps-Recorded (suc i) rest run' t in
              rw (e, f, run_steps)
                (
                  result ∷ rs,
                  h ∙ append_assoc run.steps (result ∷ []) rs,
                  one_more i (run_steps s id dir (suc i) rest run' t).0 text rest w rs e recorded,
                )
        ]
      ]

with_video-steps :
    {W : Type 0} (s : Stage W) (recording : Bool) (id dir : String) (run : TestRun) (w : W)
    → (with_video s recording id dir run w).0.steps ≡ run.steps
unfolding with_video
with_video-steps s false id dir run w = refl
with_video-steps s true id dir run w = elim (Result-cases (s.stop_recording id w).0) [
  | inr (x, e) ↦ rw e refl
  | inl (video, e) ↦
      elim (Result-cases (s.write_file dir "session.mp4" video (s.stop_recording id w).1).0) [
        | inr (x, f) ↦ rw (e, f) refl
        | inl (x, f) ↦ rw (e, f) refl
      ]
]

-- Passed, without an error, with one result for each step, each of which was run and passed.
abbrev IsComplete : {W : Type 0} → Stage W → String → String → List String → TestRun → Type 0
IsComplete s id dir steps run =
    (run.error ≡ "")
    × (length run.steps ≡ length steps)
    × All Passes run.steps
    × Executed s id dir 0 steps run.steps

concluded :
    {W : Type 0} (s : Stage W) (id dir : String) (recording : Bool) (steps : List String)
    (ending : Ending) (run : TestRun) (w : W)
    → Recorded s id dir 0 ending steps run.steps
    → (conclude_run s id dir recording (ending, run, w)).0.status ≡ RunStatus.passed
    → IsComplete s id dir steps (conclude_run s id dir recording (ending, run, w)).0
unfolding conclude_run finish
concluded s id dir recording steps Ending.timed_out run w k h = cc h
concluded s id dir recording steps Ending.stopped run w k h = cc h
concluded s id dir recording steps Ending.completed run w k h =
    rw (with_video-steps s recording id dir run w) (refl, k.0, k.1, k.2)

loop-IsComplete :
    {W : Type 0} (s : Stage W) (id dir : String) (recording : Bool) (test : Test) (run : TestRun)
    (w : W)
    → run.steps ≡ []
    → (conclude_run s id dir recording (run_steps s id dir 0 test.steps run w)).0.status
      ≡ RunStatus.passed
    → IsComplete s id dir test.steps
        (conclude_run s id dir recording (run_steps s id dir 0 test.steps run w)).0
loop-IsComplete s id dir recording test run w empty h =
    let (ending, run', v) = run_steps s id dir 0 test.steps run w in
    let (rs, steps, recorded) = run_steps-Recorded s id dir 0 test.steps run w in
    let same : run'.steps ≡ rs = steps ∙ ap (λ t. t ++ rs) empty in
    concluded s id dir recording test.steps ending run' v
      (subst (λ t. Recorded s id dir 0 ending test.steps t) (sym same) recorded) h

-- A run with no steps yet that execute ends as passed has no error, and has recorded one result for
-- each step of the test: that of running the step with this text at its place, which passed and
-- whose verb was understood.
pub execute-passed :
    {W : Type 0} (s : Stage W) (dir : String) (test : Test) (i : Instance) (run : TestRun) (w : W)
    → run.steps ≡ []
    → (execute s dir test i run w).0.status ≡ RunStatus.passed
    → ((execute s dir test i run w).0.error ≡ "")
      × (length (execute s dir test i run w).0.steps ≡ length test.steps)
      × All Passes (execute s dir test i run w).0.steps
      × Executed s i.id dir 0 test.steps (execute s dir test i run w).0.steps
unfolding execute finish
execute-passed {W} s dir test i run w empty h = go (s.mkdir_all dir w) h
  where
    good : Unit {0} → W → TestRun × W
    good _ v =
        let (recording, u) = recorded_from s i v in
        conclude_run s i.id dir recording (run_steps s i.id dir 0 test.steps run u)

    go :
        (m : Result (Unit {0}) × W)
        → (branch m
            (λ e. finish s run false (concat "create artifact dir: " (error_text e)))
            good).0.status
          ≡ RunStatus.passed
        → IsComplete s i.id dir test.steps
            (branch m
              (λ e. finish s run false (concat "create artifact dir: " (error_text e)))
              good).0
    go (err e, v) k = cc k
    go (ok _, v) k =
        let (recording, u) = recorded_from s i v in
        loop-IsComplete s i.id dir recording test run u empty k
