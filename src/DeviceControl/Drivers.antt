-- ===== src/DeviceControl/Drivers.antt =====
-- backend/internal/devicecontrol/driver.go, adb_driver.go and mcp_driver.go: the gestures, for a
-- device behind adb and for a desktop behind the runner's tunnel.
use open_cuttles.Go.{message, raise, pure, Exec, ◌>>=◌, ◌>>◌}
use open_cuttles.DeviceControl.{
  texts, unsupported, text, is_runner, integer, Lab, Parameter, lift_result, adb, Tunnel, in_world,
  adb_shell, call_tunnel, Bench,
}
use open_cuttles.Store.{word, number, get_instance, Context, Argument}
use open_cuttles.Base.{
  str_eq, String, List, ◌/◌, Bool, Option, ℕ, ◌&&◌, ◌||◌, [], ◌∷◌, if◌then◌else◌, ◌==◌, zero, suc,
  true, false, none, some,
}
use open_cuttles.Base.Int.{times, negsuc, quotient, pos, ltb_ℤ, ◌-ℤ◌, leb_ℤ, ℤ}
use open_cuttles.DeviceControl.Typing.{escape_input_text, normalize_keycode}
use open_cuttles.Domain.{Instance, Platform, source}
use open_cuttles.Go.Strings.{trim_space, to_upper}
use open_cuttles.Orchestrator.{sleep}
use open_cuttles.Go.Numbers.{wrap}
use Prim.Native.String.{◌++◌ as concat}

pub data Driver : Type 0 where
  adb_driver : Instance → Driver
  mcp_driver : Tunnel → Instance → Driver

pub record Capabilities : Type 0 where
  pub ui_tree : Bool
  pub apps : Bool
  pub shell : Bool
  pub rotate : Bool
  pub logcat : Bool
  pub install_app : Bool
  pub screen_record : Bool
  pub wheel : Bool
  pub mouse_buttons : Bool
  pub chord : Bool

unfoldable pub is_android : Platform → Bool
is_android Platform.unset = true
is_android Platform.android = true
is_android _ = false

unfoldable pub tunnel_driver : Option Tunnel → Instance → Exec Lab Driver
tunnel_driver none i l = raise (unsupported "desktop control tunnel is not configured") l
tunnel_driver (some t) i l =
    if t.is_online l.world.tick i.id
    then pure (mcp_driver t i) l
    else raise (message (concat "device " (concat i.id " is offline (no runner connected)"))) l

unfoldable pub driver_for : Bench → Instance → Exec Lab Driver
unfolding source tunnel_driver
driver_for b i = if is_runner (source i) then tunnel_driver b.tunnel i else pure (adb_driver i)

unfoldable pub capabilities_of : Driver → Capabilities
capabilities_of (adb_driver i) = record {
  ui_tree = true;
  apps = true;
  shell = true;
  rotate = true;
  logcat = true;
  install_app = true;
  screen_record = true;
  wheel = false;
  mouse_buttons = false;
  chord = false;
}
capabilities_of (mcp_driver t i) = record {
  ui_tree = false;
  apps = true;
  shell = false;
  rotate = false;
  logcat = false;
  install_app = false;
  screen_record = false;
  wheel = true;
  mouse_buttons = true;
  chord = true;
}

unfoldable pub capabilities : Bench → Context → String → Exec Lab Capabilities
unfolding driver_for capabilities_of in_world get_instance
capabilities b ctx id = do
  i ← in_world (get_instance b.database ctx id)
  d ← driver_for b i
  pure (capabilities_of d)

-- adbShell where only the error counts
unfoldable pub adb_do : Bench → Context → Instance → List Argument → Exec Lab (Unit {0})
unfolding adb_shell
adb_do b ctx i arguments = do adb_shell b ctx i arguments; pure tt

unfoldable pub call_do :
    Bench → Tunnel → Context → Instance → String → List (String × Parameter) → Exec Lab (Unit {0})
unfolding call_tunnel
call_do b t ctx i method parameters = do
  call_tunnel b t ctx (record { device_id = i.id; method = method; parameters = parameters })
  pure tt

abbrev pub int : ℤ → Argument
int n = number "" n

unfoldable pub adb_tap : Bench → Context → Instance → ℤ → ℤ → Exec Lab (Unit {0})
unfolding adb_do
adb_tap b ctx i x y = adb_do b ctx i (word "input" ∷ word "tap" ∷ int x ∷ int y ∷ [])

unfoldable pub adb_swipe : Bench → Context → Instance → ℤ → ℤ → ℤ → ℤ → ℤ → Exec Lab (Unit {0})
unfolding adb_do
adb_swipe b ctx i x1 y1 x2 y2 ms = adb_do b ctx i (
    word "input"
    ∷ word "swipe"
    ∷ int x1
    ∷ int y1
    ∷ int x2
    ∷ int y2
    ∷ (if ltb_ℤ (pos 0) ms then int ms ∷ [] else []))

-- The taps after the first, each 60 ms after the one before.
unfoldable pub adb_taps : ℕ → Bench → Context → Instance → ℤ → ℤ → Exec Lab (Unit {0})
unfolding adb_tap sleep in_world
adb_taps zero b ctx i x y = pure tt
adb_taps (suc n) b ctx i x y = do
  in_world (sleep none 60)
  adb_tap b ctx i x y
  adb_taps n b ctx i x y

-- How many taps follow the first one.
abbrev pub extra_taps : ℤ → ℕ
extra_taps (pos zero) = 0
extra_taps (pos (suc n)) = n
extra_taps (negsuc n) = 0

unfoldable pub adb_click : Bench → Context → Instance → ℤ → ℤ → String → ℤ → Exec Lab (Unit {0})
unfolding adb_tap adb_taps to_upper trim_space
adb_click b ctx i x y button count =
    let name = to_upper (trim_space button) in
    if str_eq name "" || str_eq name "LEFT"
    then (do adb_tap b ctx i x y; adb_taps (extra_taps count) b ctx i x y)
    else raise (unsupported (concat "a touchscreen has no " (concat button " button")))

abbrev pub clamp : ℤ → ℤ → ℤ → ℤ
clamp v low high = if ltb_ℤ v low then low else if ltb_ℤ high v then high else v

-- One notch is a third of the screen.
unfoldable pub scrolled : ℤ → ℤ → ℕ → ℤ
unfolding wrap
scrolled x notches size =
    clamp (wrap (x -ℤ quotient (wrap (times notches size)) 3)) (pos 1) (pos size -ℤ pos 1)

abbrev pub screen_of : Instance → ℕ × ℕ
screen_of i =
    if i.display_width == 0 || i.display_height == 0
    then (720, 1280)
    else (i.display_width, i.display_height)

abbrev pub same_ℤ : ℤ → ℤ → Bool
same_ℤ a b = leb_ℤ a b && leb_ℤ b a

-- Where the swipe of a scroll starts and ends.
unfoldable pub scroll_from : ℕ × ℕ → ℤ → ℤ → ℤ × ℤ
scroll_from (w, h) x y =
    if leb_ℤ x (pos 0) && leb_ℤ y (pos 0) then (pos (w / 2), pos (h / 2)) else (x, y)

unfoldable pub scroll_to : ℕ × ℕ → ℤ → ℤ → ℤ × ℤ → ℤ × ℤ
unfolding scrolled
scroll_to (w, h) dx dy (x, y) = (scrolled x dx w, scrolled y dy h)

unfoldable pub adb_scroll : Bench → Context → Instance → ℤ → ℤ → ℤ → ℤ → Exec Lab (Unit {0})
unfolding adb_swipe scroll_from scroll_to
adb_scroll b ctx i x y dx dy =
    let (x1, y1) = scroll_from (screen_of i) x y in
    let (x2, y2) = scroll_to (screen_of i) dx dy (x1, y1) in
    if same_ℤ x1 x2 && same_ℤ y1 y2 then pure tt else adb_swipe b ctx i x1 y1 x2 y2 (pos 300)

module _ (b : Bench) (ctx : Context) where
  unfoldable pub driver_screenshot : Driver → Exec Lab String
  unfolding adb call_tunnel lift_result
  driver_screenshot (adb_driver i) =
      adb b ctx i (word "exec-out" ∷ word "screencap" ∷ word "-p" ∷ [])
  driver_screenshot (mcp_driver t i) = do
    raw ← call_tunnel b t ctx (record { device_id = i.id; method = "screenshot"; parameters = [] })
    png ← lift_result (b.string_in raw "pngBase64")
    lift_result (b.base64_decode png)

  unfoldable pub driver_click : Driver → ℤ → ℤ → String → ℤ → Exec Lab (Unit {0})
  unfolding adb_click call_do
  driver_click (adb_driver i) x y button count = adb_click b ctx i x y button count
  driver_click (mcp_driver t i) x y button count = call_do b t ctx i "click" (
      ("x", integer x) ∷ ("y", integer y) ∷ ("button", text button) ∷ ("count", integer count) ∷ [])

  unfoldable pub driver_tap : Driver → ℤ → ℤ → Exec Lab (Unit {0})
  unfolding adb_tap driver_click
  driver_tap (adb_driver i) x y = adb_tap b ctx i x y
  driver_tap (mcp_driver t i) x y = driver_click (mcp_driver t i) x y "left" (pos 1)

  unfoldable pub driver_scroll : Driver → ℤ → ℤ → ℤ → ℤ → Exec Lab (Unit {0})
  unfolding adb_scroll call_do
  driver_scroll (adb_driver i) x y dx dy = adb_scroll b ctx i x y dx dy
  driver_scroll (mcp_driver t i) x y dx dy =
      call_do b t ctx i "scroll"
        (("x", integer x) ∷ ("y", integer y) ∷ ("dx", integer dx) ∷ ("dy", integer dy) ∷ [])

  unfoldable pub driver_chord : Driver → List String → Exec Lab (Unit {0})
  unfolding call_do
  driver_chord (adb_driver i) keys =
      raise (unsupported "modifier chords are desktop-only; use press_key on Android")
  driver_chord (mcp_driver t i) keys = call_do b t ctx i "chord" (("keys", texts keys) ∷ [])

  unfoldable pub driver_swipe : Driver → ℤ → ℤ → ℤ → ℤ → ℤ → Exec Lab (Unit {0})
  unfolding adb_swipe call_do
  driver_swipe (adb_driver i) x1 y1 x2 y2 ms = adb_swipe b ctx i x1 y1 x2 y2 ms
  driver_swipe (mcp_driver t i) x1 y1 x2 y2 ms = call_do b t ctx i "drag" (
      ("x1", integer x1)
      ∷ ("y1", integer y1)
      ∷ ("x2", integer x2)
      ∷ ("y2", integer y2)
      ∷ ("durationMs", integer ms)
      ∷ [])

  unfoldable pub driver_text : Driver → String → Exec Lab (Unit {0})
  unfolding adb_do call_do escape_input_text
  driver_text (adb_driver i) s =
      adb_do b ctx i (word "input" ∷ word "text" ∷ word (escape_input_text s) ∷ [])
  driver_text (mcp_driver t i) s = call_do b t ctx i "type" (("text", text s) ∷ [])

  unfoldable pub driver_key : Driver → String → Exec Lab (Unit {0})
  unfolding adb_do call_do normalize_keycode
  driver_key (adb_driver i) k =
      adb_do b ctx i (word "input" ∷ word "keyevent" ∷ word (normalize_keycode k) ∷ [])
  driver_key (mcp_driver t i) k = call_do b t ctx i "key" (("key", text k) ∷ [])
