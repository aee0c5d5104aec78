-- ===== src/DeviceControl/Operations.antt =====
-- backend/internal/devicecontrol/service.go: the operations on a device, each within its own bound
-- on time. The output of adb is a text that Readings takes apart.
use open_cuttles.Store.{Argument, word, Context}
use open_cuttles.DeviceControl.Hierarchy.{UiNode, XmlNodes, parse_ui_hierarchy}
use open_cuttles.Base.Int.{pos, ltb_ℤ, leb_ℤ, ℤ}
use open_cuttles.DeviceControl.{
  unsupported, is_runner, interactive_timeout, shell_timeout, Lab, text, Parameter, adb,
  call_tunnel, lift_result, adb_shell, within, resolve, Bench,
}
use open_cuttles.Base.{map, List, str_eq, Bool, ℕ, String, ◌||◌, [], ◌∷◌, if◌then◌else◌, none, some}
use open_cuttles.Go.{message, raise, pure, Exec, Result, ◌>>=◌, ◌>>◌, ok}
use open_cuttles.DeviceControl.Drivers.{
  int, Driver, driver_screenshot, driver_tap, driver_click, driver_scroll, driver_chord,
  driver_swipe, driver_text, driver_key, is_android, adb_do, driver_for,
}
use open_cuttles.Go.Text.{Text}
use open_cuttles.DeviceControl.Readings.{package_names, parse_resumed_activity, parse_wm_size}
use open_cuttles.Go.Strings.{codes}
use open_cuttles.Domain.{Instance, source}

-- An operation's start: its deadline, and the device, if it can be driven.
unfoldable pub timed :
    {A : Type 0} → ℕ → Bench → Context → String → (Context → Instance → Exec Lab A) → Exec Lab A
unfolding resolve within
timed ms b ctx id body l =
    let until = within ctx ms l.world in (resolve b until id >>= body until) l

-- An operation that a driver performs.
unfoldable pub driven :
    {A : Type 0} → Bench → Context → String → (Context → Driver → Exec Lab A) → Exec Lab A
unfolding timed driver_for
driven b ctx id body = timed interactive_timeout b ctx id (λ until i. driver_for b i >>= body until)

abbrev pub launcher : String → List Argument
launcher app =
    word "monkey"
    ∷ word "-p"
    ∷ word app
    ∷ word "-c"
    ∷ word "android.intent.category.LAUNCHER"
    ∷ word "1"
    ∷ []

abbrev pub last_lines : ℤ → List Argument
last_lines n =
    word "logcat"
    ∷ word "-d"
    ∷ word "-t"
    ∷ int (if leb_ℤ n (pos 0) || ltb_ℤ (pos 5000) n then pos 500 else n)
    ∷ []

abbrev put_system : String → Argument → List Argument
put_system name value = word "settings" ∷ word "put" ∷ word "system" ∷ word name ∷ value ∷ []

unfoldable pub rotate_on : Bench → Context → Instance → ℤ → Exec Lab (Unit {0})
unfolding adb_do
rotate_on b ctx i orientation =
    if ltb_ℤ orientation (pos 0) || ltb_ℤ (pos 3) orientation
    then raise (message "orientation must be 0..3")
    else adb_do b ctx i (put_system "accelerometer_rotation" (word "0"))
      >> adb_do b ctx i (put_system "user_rotation" (int orientation))

module _ (b : Bench) (ctx : Context) (id : String) where
  unfoldable pub screenshot : Exec Lab String
  unfolding driven driver_screenshot
  screenshot = driven b ctx id (driver_screenshot b)

  unfoldable pub tap : ℤ → ℤ → Exec Lab (Unit {0})
  unfolding driven driver_tap
  tap x y = driven b ctx id (λ until d. driver_tap b until d x y)

  unfoldable pub click : ℤ → ℤ → String → ℤ → Exec Lab (Unit {0})
  unfolding driven driver_click
  click x y button count = driven b ctx id (λ until d. driver_click b until d x y button count)

  unfoldable pub scroll : ℤ → ℤ → ℤ → ℤ → Exec Lab (Unit {0})
  unfolding driven driver_scroll
  scroll x y dx dy = driven b ctx id (λ until d. driver_scroll b until d x y dx dy)

  unfoldable pub press_chord : List String → Exec Lab (Unit {0})
  unfolding driven driver_chord
  press_chord keys = driven b ctx id (λ until d. driver_chord b until d keys)

  unfoldable pub swipe : ℤ → ℤ → ℤ → ℤ → ℤ → Exec Lab (Unit {0})
  unfolding driven driver_swipe
  swipe x1 y1 x2 y2 ms = driven b ctx id (λ until d. driver_swipe b until d x1 y1 x2 y2 ms)

  unfoldable pub long_press : ℤ → ℤ → ℤ → Exec Lab (Unit {0})
  unfolding swipe
  long_press x y ms = swipe x y x y (if leb_ℤ ms (pos 0) then pos 800 else ms)

  unfoldable pub type_text : String → Exec Lab (Unit {0})
  unfolding driven driver_text
  type_text s = driven b ctx id (λ until d. driver_text b until d s)

  unfoldable pub press_key : String → Exec Lab (Unit {0})
  unfolding driven driver_key
  press_key k = driven b ctx id (λ until d. driver_key b until d k)

  unfoldable pub ui_tree : (Text → Result XmlNodes) → Exec Lab UiNode
  unfolding timed adb lift_result parse_ui_hierarchy codes
  ui_tree unmarshal = timed interactive_timeout b ctx id λ until i. do
    out ← adb b until i (word "exec-out" ∷ word "uiautomator" ∷ word "dump" ∷ word "/dev/tty" ∷ [])
    lift_result (parse_ui_hierarchy unmarshal (codes out))

  -- callRunner
  unfoldable pub call_runner : Context → String → List (String × Parameter) → Exec Lab String
  unfolding call_tunnel
  call_runner until method parameters = elim b.tunnel [
    | none ↦ raise (unsupported "desktop control tunnel is not configured")
    | some t ↦
        call_tunnel b t until (record { device_id = id; method = method; parameters = parameters })
  ]

  -- A field of a reply, the zero value of an empty one.
  unfoldable pub field_of :
      {A : Type 0} → (String → String → Result A) → A → String → String → Result A
  field_of decode zero_value raw name = if str_eq raw "" then ok zero_value else decode raw name

  unfoldable pub list_desktop_apps : Context → Exec Lab (List Text)
  unfolding call_runner field_of lift_result codes
  list_desktop_apps until = do
    raw ← call_runner until "list_apps" []
    names ← lift_result (field_of b.strings_in [] raw "apps")
    pure (map codes names)

  unfoldable pub list_packages : Context → Instance → Bool → Exec Lab (List Text)
  unfolding adb_shell codes package_names
  list_packages until i third_party_only = do
    out ← adb_shell b until i (
        word "pm"
        ∷ word "list"
        ∷ word "packages"
        ∷ (if third_party_only then word "-3" ∷ [] else []))
    pure (package_names (codes out))

  unfoldable pub list_apps : Bool → Exec Lab (List Text)
  unfolding timed is_android list_desktop_apps list_packages
  list_apps third_party_only = timed interactive_timeout b ctx id λ until i.
      if is_android i.platform
      then list_packages until i third_party_only
      else list_desktop_apps until

  unfoldable pub launch_app : String → Exec Lab (Unit {0})
  unfolding timed adb_do
  launch_app app = timed interactive_timeout b ctx id λ until i. adb_do b until i (launcher app)

  unfoldable pub foreground_window : Context → Exec Lab Text
  unfolding call_runner field_of lift_result codes
  foreground_window until = do
    raw ← call_runner until "current_activity" []
    title ← lift_result (field_of b.string_in "" raw "activity")
    pure (codes title)

  unfoldable pub resumed_activity : Context → Instance → Exec Lab Text
  unfolding adb_shell codes parse_resumed_activity
  resumed_activity until i = do
    out ← adb_shell b until i (word "dumpsys" ∷ word "activity" ∷ word "activities" ∷ [])
    pure (parse_resumed_activity (codes out))

  unfoldable pub current_activity : Exec Lab Text
  unfolding timed is_android foreground_window resumed_activity
  current_activity =
      timed interactive_timeout b ctx id λ until i.
        if is_android i.platform then resumed_activity until i else foreground_window until

  unfoldable pub open_desktop_app : Context → String → Exec Lab String
  unfolding call_runner field_of lift_result
  open_desktop_app until name = do
    raw ← call_runner until "open_app" (("name", text name) ∷ [])
    opened ← lift_result (field_of b.string_in "" raw "opened")
    pure (if str_eq opened "" then name else opened)

  unfoldable pub open_app : String → Exec Lab String
  unfolding timed source open_desktop_app
  open_app name = timed interactive_timeout b ctx id λ until i.
      if is_runner (source i)
      then open_desktop_app until name
      else raise (unsupported "open_app needs a desktop runner; use launch_app for Android")

  unfoldable pub read_size : Context → Instance → Exec Lab (ℕ × ℕ)
  unfolding adb_shell codes parse_wm_size
  read_size until i = do
    out ← adb_shell b until i (word "wm" ∷ word "size" ∷ [])
    elim (parse_wm_size (codes out)) [
      | some size ↦ pure size
      | none ↦ raise (message "could not parse wm size")
    ]

  unfoldable pub input_size : Exec Lab (ℕ × ℕ)
  unfolding timed is_android read_size
  input_size =
      timed interactive_timeout b ctx id
        λ until i. if is_android i.platform then read_size until i else pure (0, 0)

  unfoldable pub rotate : ℤ → Exec Lab (Unit {0})
  unfolding timed rotate_on
  rotate orientation = timed interactive_timeout b ctx id λ until i. rotate_on b until i orientation

  unfoldable pub shell : String → Exec Lab String
  unfolding timed adb_shell
  shell command = timed shell_timeout b ctx id λ until i. adb_shell b until i (word command ∷ [])

  unfoldable pub logcat : ℤ → Exec Lab String
  unfolding timed adb_shell
  logcat lines = timed shell_timeout b ctx id λ until i. adb_shell b until i (last_lines lines)
