-- ===== src/DeviceControl/Addressed.antt =====
-- Every operation that acts on a device goes to that device, and only if it can be driven.
use open_cuttles.DeviceControl.Aimed.{
  rotate_on-Reaches, install_on-Reaches, scroll-Reaches, click-Reaches, pull_recording-Reaches,
  pause-Reaches, ignoring-Reaches, driver_for-Reaches,
}
use open_cuttles.DeviceControl.Operations.{
  rotate_on, last_lines, launcher, logcat, rotate, shell, launch_app, press_key, type_text,
  press_chord, long_press, swipe, scroll, click, timed, driven, tap,
}
use open_cuttles.Store.{word, Context}
use open_cuttles.DeviceControl.{
  adb_shell, shell_timeout, interactive_timeout, within, is_runner, Tunnel, Lab, Bench,
}
use open_cuttles.DeviceControl.Drivers.{
  adb_do, adb_swipe, adb_tap, driver_key, driver_text, driver_chord, driver_swipe, driver_scroll,
  driver_click, driver_tap, driver_screenshot, mcp_driver, adb_driver, Driver,
}
use open_cuttles.DeviceControl.Actions.{row_id, Action, resolve-Aimed, Aimed, perform}
use open_cuttles.DeviceControl.Polling.{install_build_on-Reaches}
use open_cuttles.Base.Int.{pos, leb_ℤ}
use open_cuttles.Base.{ℕ, String, ◌≡◌, [], ◌∷◌, if◌then◌else◌, true, refl}
use open_cuttles.DeviceControl.Reach.{
  adb-Reaches, Reaches, adb_shell-Reaches, adb_do-Reaches, call_do-Reaches,
}
use open_cuttles.DeviceControl.Installs.{
  install_desktop_build, install_apk, stop_recording, start_recording, ignoring,
}
use open_cuttles.Domain.{source, Instance}
use open_cuttles.Go.{Exec}
use open_cuttles.DeviceControl.Operations
use open_cuttles.DeviceControl.Effects.{Adds-bind, Adds-raise, Adds-lift_result, Adds-call_tunnel}

module _ (b : Bench) (ctx : Context) (id : String) (l : Lab) where
  timed-Aimed :
      {A : Type 0} (ms : ℕ) (body : Context → Instance → Exec Lab A)
      → ((until : Context) (i : Instance) → Reaches i (body until i))
      → Aimed b id l (timed ms b ctx id body l).1
  unfolding timed
  timed-Aimed ms body k =
      resolve-Aimed b (within ctx ms l.world) id (body (within ctx ms l.world)) l
        (λ i _. k (within ctx ms l.world) i)

  driven-Aimed :
      {A : Type 0} (body : Context → Driver → Exec Lab A)
      → ((until : Context) (i : Instance) → Reaches i (body until (adb_driver i)))
      → ((until : Context) (i : Instance) (t : Tunnel)
          → is_runner (source i) ≡ true
          → Reaches i (body until (mcp_driver t i)))
      → Aimed b id l (driven b ctx id body l).1
  unfolding driven
  driven-Aimed body ka km =
      timed-Aimed interactive_timeout _
        λ until i. driver_for-Reaches i (body until) b (ka until i) (λ e t. km until i t e)

pub perform-Aimed :
    (b : Bench) (ctx : Context) (id : String) (a : Action) (l : Lab)
    → Aimed b id l (perform b ctx id a l).1
unfolding perform ignoring open_cuttles.DeviceControl.Operations.screenshot start_recording
    stop_recording tap click scroll swipe long_press press_chord type_text press_key launch_app
    shell install_apk rotate logcat install_desktop_build driver_screenshot driver_tap driver_click
    driver_scroll driver_swipe driver_chord driver_text driver_key adb_tap adb_swipe
perform-Aimed b ctx id Action.screenshot l =
    driven-Aimed b ctx id l (driver_screenshot b) (λ until i. adb-Reaches i b until _)
      (λ until i t e.
        Adds-bind _ _ (Adds-call_tunnel b t until _ (record { desktop = e; is_id = refl }))
          λ raw. Adds-bind _ _ (Adds-lift_result _) (λ png. Adds-lift_result _))
perform-Aimed b ctx id Action.start_recording l = resolve-Aimed b ctx id _ l λ i _.
    Adds-bind _ _ (ignoring-Reaches i _ (adb_shell-Reaches i b ctx _))
      (λ _. adb_do-Reaches i b ctx _)
perform-Aimed b ctx id Action.stop_recording l = resolve-Aimed b ctx id _ l λ i _.
    Adds-bind _ _ (ignoring-Reaches i _ (adb_shell-Reaches i b ctx _))
      λ _. Adds-bind _ _ (pause-Reaches i ctx 2000) (λ _. pull_recording-Reaches b ctx i)
perform-Aimed b ctx id (Action.tap x y) l =
    driven-Aimed b ctx id l (λ until d. driver_tap b until d x y)
      (λ until i. adb_do-Reaches i b until _) (λ until i t. call_do-Reaches i b until t _ _)
perform-Aimed b ctx id (Action.click x y button n) l =
    driven-Aimed b ctx id l (λ until d. driver_click b until d x y button n)
      (λ until i. click-Reaches b until i x y button n)
      (λ until i t. call_do-Reaches i b until t _ _)
perform-Aimed b ctx id (Action.scroll x y dx dy) l =
    driven-Aimed b ctx id l (λ until d. driver_scroll b until d x y dx dy)
      (λ until i. scroll-Reaches b until i x y dx dy) (λ until i t. call_do-Reaches i b until t _ _)
perform-Aimed b ctx id (Action.swipe x1 y1 x2 y2 ms) l =
    driven-Aimed b ctx id l (λ until d. driver_swipe b until d x1 y1 x2 y2 ms)
      (λ until i. adb_do-Reaches i b until _) (λ until i t. call_do-Reaches i b until t _ _)
perform-Aimed b ctx id (Action.long_press x y ms) l =
    let held = if leb_ℤ ms (pos 0) then pos 800 else ms in
    driven-Aimed b ctx id l (λ until d. driver_swipe b until d x y x y held)
      (λ until i. adb_do-Reaches i b until _) (λ until i t. call_do-Reaches i b until t _ _)
perform-Aimed b ctx id (Action.chord keys) l =
    driven-Aimed b ctx id l (λ until d. driver_chord b until d keys) (λ until i. Adds-raise _)
      (λ until i t. call_do-Reaches i b until t _ _)
perform-Aimed b ctx id (Action.type_text s) l =
    driven-Aimed b ctx id l (λ until d. driver_text b until d s)
      (λ until i. adb_do-Reaches i b until _) (λ until i t. call_do-Reaches i b until t _ _)
perform-Aimed b ctx id (Action.press_key k) l =
    driven-Aimed b ctx id l (λ until d. driver_key b until d k)
      (λ until i. adb_do-Reaches i b until _) (λ until i t. call_do-Reaches i b until t _ _)
perform-Aimed b ctx id (Action.launch_app app) l =
    timed-Aimed b ctx id l interactive_timeout (λ until i. adb_do b until i (launcher app))
      (λ until i. adb_do-Reaches i b until (launcher app))
perform-Aimed b ctx id (Action.shell command) l =
    timed-Aimed b ctx id l shell_timeout (λ until i. adb_shell b until i (word command ∷ []))
      (λ until i. adb_shell-Reaches i b until (word command ∷ []))
perform-Aimed b ctx id (Action.install_apk path) l =
    resolve-Aimed b ctx id _ l
      λ i _. record { at = λ m. (install_on-Reaches b (within ctx 240000 m.world) i path).at m }
perform-Aimed b ctx id (Action.rotate n) l =
    timed-Aimed b ctx id l interactive_timeout (λ until i. rotate_on b until i n)
      (λ until i. rotate_on-Reaches b until i n)
perform-Aimed b ctx id (Action.logcat n) l =
    timed-Aimed b ctx id l shell_timeout (λ until i. adb_shell b until i (last_lines n))
      (λ until i. adb_shell-Reaches i b until (last_lines n))
perform-Aimed b ctx id (Action.install_build build name arguments) l =
    resolve-Aimed b ctx id _ l
      λ i row. install_build_on-Reaches b ctx id i build name arguments (row_id id _ i row)
