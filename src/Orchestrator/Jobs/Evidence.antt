-- ===== src/Orchestrator/Jobs/Evidence.antt =====
-- What the host answered where the steps of a job did not fail: stop, launch and waitReady of
-- backend/internal/orchestrator/service.go.
use open_cuttles.Domain.{booting, Instance}
use Prim.Native.String.{◌++◌ as concat}
use open_cuttles.Orchestrator.{
  Command, command_result, CommandResult, run_in_dir, instance_number, Machine, run,
}
use open_cuttles.Orchestrator.Tools.{
  launch, start_command, launch_arguments, stop, stop_command, instance_dir, group_setting,
  command_failed, adb_target,
}
use open_cuttles.Store.{get_instance, Argument, word, number, World, Context, update_instance_state}
use open_cuttles.Go.Laws.{bind_ok, ok_injective}
use open_cuttles.Base.Int.{pos}
use open_cuttles.Go.Strings.{trim_space}
use open_cuttles.Orchestrator.Ready.{boot_completed, wait_boot_from, wait_boot, wait_ready}
use open_cuttles.Base.{
  eq_iff, ltb, zero, suc, ℕ, Bool, if◌then◌else◌, Option-cases, Bool-cases, List, [], ◌∷◌, ◌⊎◌,
  true, false, not, String, ◌≡◌, ap, ◌∙◌, inl, inr, none,
}
use open_cuttles.Go.{ok, Exec, pure, ◌>>=◌}

-- The host's answer to the command, at some moment, is not a failure.
abbrev pub Answered : Machine → Command → Type 0
Answered m c = (ctx : Context) × (w : World) × ((command_result m ctx w c).failure ≡ none)

command_failed_ok :
    (program : String) (r : CommandResult) (w : World) (a : Unit)
    → (command_failed program r w).0 ≡ ok a
    → r.failure ≡ none
unfolding command_failed
command_failed_ok program r w a h = elim (Option-cases r.failure) [
  | inl e ↦ e
  | inr (x, e) ↦ cc (rw e at h)
]

stop_command_ok :
    (m : Machine) (ctx : Context) (dir program : String) (arguments : List Argument) (w : World)
    (a : Unit)
    → ((do r ← run_in_dir m ctx dir program arguments; command_failed program r) w).0 ≡ ok a
    → Answered m (record { dir = dir; program = program; arguments = arguments })
unfolding run_in_dir
stop_command_ok m ctx dir program arguments w a h =
    let (r, ran, fine) =
      bind_ok (run_in_dir m ctx dir program arguments) (command_failed program) w a h in
    (
      ctx,
      w,
      ap (λ (x : CommandResult). x.failure) (ok_injective ran)
          ∙ command_failed_ok program r _ a fine,
    )

launch_live :
    (m : Machine) (k : Exec World Unit) (w : World) (a : Unit)
    → m.live ≡ true
    → ((if not m.live then pure tt else k) w).0 ≡ ok a
    → (k w).0 ≡ ok a
launch_live m k w a live h = go m.live live h
  where
    go : (b : Bool) → b ≡ true → ((if not b then pure tt else k) w).0 ≡ ok a → (k w).0 ≡ ok a
    go true e h = h
    go false e h = cc e

-- With the tool chain, the host's launch command for the device as it was read was answered.
abbrev pub IsLaunched : Machine → String → Type 0
IsLaunched m id =
    (m.live ≡ true)
    → (ctx : Context) × (v : World) × (i : Instance) × (path : String) × ((get_instance m.database
          ctx id v).0
        ≡ ok i)
      × (let (program, arguments) = start_command m (launch_arguments i) path i in
          Answered m (record {
            dir = concat m.instance_root (concat "/" i.id);
            program = program;
            arguments = arguments;
          }))

pub launch-IsLaunched :
    (m : Machine) (ctx : Context) (id : String) (i : Instance) (v w : World) (a : Unit)
    → (get_instance m.database ctx id v).0 ≡ ok i
    → (launch m ctx i w).0 ≡ ok a
    → IsLaunched m id
unfolding launch instance_dir
launch-IsLaunched m ctx id i v w a found h live =
    let (image, looked, h1) = bind_ok _ _ w a h in
    let (u, valid, h2) = bind_ok _ _ _ a h1 in
    let (u1, made, h3) = bind_ok _ _ _ a (launch_live m _ _ a live h2) in
    let (u2, cleared, h4) = bind_ok _ _ _ a h3 in
    (ctx, v, i, image.path, found, stop_command_ok m ctx _ _ _ _ a h4)

-- The record was read as that of the device, or answered when it was written as booting.
abbrev pub IsRead : Machine → String → Instance → Type 0
IsRead m id i =
    (ctx : Context) × (v : World) × (((get_instance m.database ctx id v).0 ≡ ok i)
      ⊎ ((update_instance_state m.database ctx id booting "" v).0 ≡ ok i))

-- At the device's port, `getprop sys.boot_completed` was answered by 1.
abbrev pub BootAnswered : Machine → Instance → Type 0
BootAnswered m i =
    let c : Command = record {
      dir = "";
      program = "adb";
      arguments =
          word "-s"
          ∷ number "127.0.0.1:" (pos i.adb_port)
          ∷ word "shell"
          ∷ word "getprop"
          ∷ word "sys.boot_completed"
          ∷ [];
    } in
    (ctx : Context) × (w : World) × ((command_result m ctx w c).failure ≡ none)
    × (trim_space (command_result m ctx w c).output ≡ "1")

-- With the tool chain, the device was seen to have booted.
abbrev pub IsBooted : Machine → String → Type 0
IsBooted m id = (m.live ≡ true) → (i : Instance) × IsRead m id i × BootAnswered m i

boot_completed_lem :
    (r : CommandResult) → boot_completed r ≡ true → (r.failure ≡ none) × (trim_space r.output ≡ "1")
unfolding boot_completed
boot_completed_lem r h = elim (Option-cases r.failure) [
  | inl e ↦ (e, (eq_iff (trim_space r.output) "1").0 (rw e at h))
  | inr (x, e) ↦ cc (rw e at h)
]

wait_boot_from-BootAnswered :
    (n : ℕ) (m : Machine) (ctx : Context) (i : Instance) (deadline : ℕ) (w : World) (a : Unit)
    → (wait_boot_from n m ctx i deadline w).0 ≡ ok a
    → BootAnswered m i
unfolding wait_boot_from run run_in_dir adb_target
wait_boot_from-BootAnswered zero m ctx i deadline w a h = cc h
wait_boot_from-BootAnswered (suc n) m ctx i deadline w a h =
    elim (Bool-cases (ltb w.now deadline)) [
      | inr e ↦ cc (rw (e, wait_boot_from) at h)
      | inl e ↦
          let (r, ran, rest) = bind_ok _ _ w a (rw (e, wait_boot_from) at h) in
          elim (Bool-cases (boot_completed r)) [
            | inl b ↦
                let (fine, one) = boot_completed_lem r b in
                let same = ok_injective ran in
                (
                  ctx,
                  w,
                  ap (λ (x : CommandResult). x.failure) same ∙ fine,
                  ap (λ (x : CommandResult). trim_space x.output) same ∙ one,
                )
            | inr b ↦
                let (u, slept, later) = bind_ok _ _ _ a (rw b at rest) in
                wait_boot_from-BootAnswered n m ctx i deadline _ a later
          ]
    ]

pub wait_ready-BootAnswered :
    (m : Machine) (ctx : Context) (i : Instance) (w : World) (a : Unit)
    → (wait_ready m ctx i w).0 ≡ ok a
    → m.live ≡ true
    → BootAnswered m i
unfolding wait_ready wait_boot
wait_ready-BootAnswered m ctx i w a h live =
    let (r, ran, h1) = bind_ok _ _ w a (launch_live m _ w a live h) in
    let (u, joined, h2) = bind_ok _ _ _ a h1 in wait_boot_from-BootAnswered 80 m ctx i _ _ a h2

-- With the tool chain, the host's stop command for the device's number was answered, or, where there
-- is no such tool, that for its group.
abbrev pub IsHalted : Machine → Instance → Type 0
IsHalted m i =
    let dir = concat m.instance_root (concat "/" i.id) in
    let n = instance_number i.adb_port in
    (m.live ≡ true)
    → ((m.look_path "stop_cvd" ≡ true)
        × Answered m (record {
          dir = dir;
          program = "stop_cvd";
          arguments = number "--instance_num=" n ∷ [];
        }))
      ⊎ ((m.look_path "stop_cvd" ≡ false)
          × Answered m (record {
            dir = dir;
            program = "cvd";
            arguments = word "stop" ∷ number "--group_name=cvd_" n ∷ [];
          }))

pub stop-IsHalted :
    (m : Machine) (ctx : Context) (i : Instance) (w : World) (a : Unit)
    → (stop m ctx i w).0 ≡ ok a
    → IsHalted m i
unfolding stop stop_command instance_dir group_setting run_in_dir
stop-IsHalted m ctx i w a h live = elim (Bool-cases (m.look_path "stop_cvd")) [
  | inl e ↦ inl (e, stop_command_ok m ctx _ _ _ w a (rw (live, e) at h))
  | inr e ↦ inr (e, stop_command_ok m ctx _ _ _ w a (rw (live, e) at h))
]
