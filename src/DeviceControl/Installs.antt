-- ===== src/DeviceControl/Installs.antt =====
-- backend/internal/devicecontrol/service.go: the operations that set their own bound on time, or
-- none: installs, recordings and the performance sample. A video is a text of its bytes.
use open_cuttles.Go.Strings.{decimal, codes}
use open_cuttles.DeviceControl.{
  unsupported, text, lift_result, in_world, shell_timeout, is_runner, adb, adb_shell, within, Lab,
  Bench, resolve,
}
use open_cuttles.Base.Int.{pos, ℤ}
use open_cuttles.Base.{
  str_eq, length, ltb, ℕ, Bool, String, List, ◌+◌, [], ◌∷◌, if◌then◌else◌, zero, suc, true, false,
}
use open_cuttles.Go.{
  raise, pure, attempt, deadline_exceeded, wrapped, message, Error, Exec, ◌>>=◌, ◌>>◌, ok, err,
}
use open_cuttles.DeviceControl.Readings.{parse_total_pss, parse_battery_level}
use open_cuttles.Domain.{Instance, source, is_provisioned}
use open_cuttles.DeviceControl.Operations.{field_of, timed, call_runner}
use open_cuttles.Store.{word, Argument, Context}
use open_cuttles.DeviceControl.Drivers.{adb_do}
use open_cuttles.Orchestrator.{sleep}
use Prim.Native.String.{◌++◌ as concat}

-- errors.Is(err, context.DeadlineExceeded)
unfoldable pub is_deadline : Error → Bool
is_deadline deadline_exceeded = true
is_deadline (wrapped p e s) = is_deadline e
is_deadline _ = false

-- The error is only logged.
unfoldable pub ignoring : {A : Type 0} → Exec Lab A → Exec Lab (Unit {0})
ignoring m l = (ok tt, (m l).1)

abbrev pub put_global : String → List Argument
put_global name = word "settings" ∷ word "put" ∷ word "global" ∷ word name ∷ word "0" ∷ []

abbrev pub install_timed_out : Error
install_timed_out =
    message "adb install timed out after 4m — the device may be busy or the APK is incompatible"

abbrev pub install_command : String → List Argument
install_command path = word "install" ∷ word "-r" ∷ word path ∷ []

abbrev pub pkill : List Argument
pkill = word "pkill" ∷ word "-INT" ∷ word "screenrecord" ∷ []

abbrev pub record_path : String
record_path = "/sdcard/opencuttles-rec.mp4"

pub record PerfSnapshot : Type 0 where
  pub package_name : String
  pub battery_level : ℤ
  pub total_pss_kb : ℤ

unfoldable pub checked_video : String → Exec Lab String
unfolding codes decimal
checked_video video =
    let n = length (codes video) in
    if ltb n 1024
    then raise (
        message (
          concat "recording too small ("
            (concat (decimal (pos n)) " bytes); screenrecord may not have started")))
    else pure video

-- What one poll's answer means; `rest` is the next round.
unfoldable pub after_status : String → String → Exec Lab (Unit {0}) → Exec Lab (Unit {0})
after_status status detail rest =
    if str_eq status "done"
    then pure tt
    else if str_eq status "error"
    then raise (message (concat "desktop install failed: " detail))
    else rest

module _ (b : Bench) (ctx : Context) where
  unfoldable pub disable_install_verification : Instance → Exec Lab (Unit {0})
  unfolding is_provisioned ignoring adb_shell
  disable_install_verification i =
      if is_provisioned i
      then (do
        ignoring (adb_shell b ctx i (put_global "verifier_verify_adb_installs"))
        ignoring (adb_shell b ctx i (put_global "package_verifier_enable")))
      else pure tt

  unfoldable pub install_on : String → Instance → Exec Lab (Unit {0})
  unfolding disable_install_verification adb is_deadline
  install_on path i = do
    disable_install_verification i
    result ← attempt (adb b ctx i (install_command path))
    elim result [
      | ok out ↦ pure tt
      | err e ↦ raise (if is_deadline e then install_timed_out else e)
    ]

  -- The device's recorder after its signal.
  unfoldable pub pull_recording : Instance → Exec Lab String
  unfolding adb adb_shell ignoring checked_video
  pull_recording i = do
    video ← adb b ctx i (word "exec-out" ∷ word "cat" ∷ word record_path ∷ [])
    ignoring (adb_shell b ctx i (word "rm" ∷ word "-f" ∷ word record_path ∷ []))
    checked_video video

  unfoldable pub perf_of : String → Instance → Exec Lab PerfSnapshot
  unfolding adb_shell parse_battery_level parse_total_pss codes
  perf_of app i = do
    battery ← attempt (adb_shell b ctx i (word "dumpsys" ∷ word "battery" ∷ []))
    memory ← attempt (
        if str_eq app ""
        then pure ""
        else adb_shell b ctx i (word "dumpsys" ∷ word "meminfo" ∷ word app ∷ []))
    pure (record {
      package_name = app;
      battery_level = elim battery [ ok out ↦ parse_battery_level (codes out) | err e ↦ pos 0 ];
      total_pss_kb = elim memory [ ok out ↦ parse_total_pss (codes out) | err e ↦ pos 0 ];
    })

module _ (b : Bench) (ctx : Context) (id : String) where
  unfoldable pub install_apk : String → Exec Lab (Unit {0})
  unfolding resolve within install_on
  install_apk path = do i ← resolve b ctx id; λ l. install_on b (within ctx 240000 l.world) path i l

  unfoldable pub start_recording : Exec Lab (Unit {0})
  unfolding resolve ignoring adb_do
  start_recording = do
    i ← resolve b ctx id
    ignoring (adb_shell b ctx i pkill)
    adb_do b ctx i (
        word "nohup"
        ∷ word "screenrecord"
        ∷ word "--time-limit"
        ∷ word "180"
        ∷ word record_path
        ∷ word ">/dev/null"
        ∷ word "2>&1"
        ∷ word "&"
        ∷ [])

  unfoldable pub stop_recording : Exec Lab String
  unfolding resolve ignoring pull_recording sleep in_world
  stop_recording = do
    i ← resolve b ctx id
    ignoring (adb_shell b ctx i pkill)
    in_world (sleep ctx 2000)
    pull_recording b ctx i

  unfoldable pub perf : String → Exec Lab PerfSnapshot
  unfolding timed perf_of
  perf app = timed shell_timeout b ctx id λ until i. perf_of b until app i

  unfoldable pub install_status : String → Exec Lab (String × String)
  unfolding call_runner field_of lift_result
  install_status build = do
    raw ← call_runner b ctx id ctx "install_status" (("buildId", text build) ∷ [])
    status ← lift_result (field_of b ctx id b.string_in "" raw "status")
    detail ← lift_result (field_of b ctx id b.string_in "" raw "detail")
    pure (status, detail)

  -- One round for each poll; 120 rounds of 3 seconds fill the 6 minutes.
  unfoldable pub poll_install : ℕ → ℕ → String → Exec Lab (Unit {0})
  unfolding install_status sleep in_world after_status
  poll_install zero deadline build l = raise (message "desktop install timed out") l
  poll_install (suc n) deadline build l =
      let rest = poll_install n deadline build in
      if ltb l.world.now deadline
      then (do
        in_world (sleep ctx 3000)
        (status, detail) ← install_status build
        after_status status detail rest)
          l
      else raise (message "desktop install timed out") l

  unfoldable pub install_build_on : Instance → String → String → String → Exec Lab (Unit {0})
  unfolding source call_runner poll_install
  install_build_on i build filename arguments =
      if is_runner (source i)
      then (do
        call_runner b ctx id ctx "install_app"
            (("buildId", text build) ∷ ("filename", text filename) ∷ ("args", text arguments) ∷ [])
        λ l. poll_install 120 (l.world.now + 360000) build l)
      else raise (unsupported "desktop build install needs a runner; Android uses APK install")

  unfoldable pub install_desktop_build : String → String → String → Exec Lab (Unit {0})
  unfolding resolve install_build_on
  install_desktop_build build filename arguments = do
    i ← resolve b ctx id
    install_build_on i build filename arguments
