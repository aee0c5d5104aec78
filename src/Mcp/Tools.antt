-- ===== src/Mcp/Tools.antt =====
-- backend/internal/mcp/server.go: the tools that are registered, with their handlers.
use open_cuttles.Base.{Bool, Option, String, List, [], ◌∷◌}
use open_cuttles.Domain.{State, Platform, Instance}
use open_cuttles.Go.Text.{Text}
use open_cuttles.Base.Int.{ℤ}
use open_cuttles.DeviceControl.Hierarchy.{UiNode}

-- A tool with its input; the first text of most is deviceId, empty where it is left out. The
-- number of seconds of `wait`, which is floating point, is in milliseconds.
pub data Tool : Type 0 where
  list_devices get_active_device : Tool
  select_device : String → Tool
  get_ui_tree current_activity : String → Tool
  scroll : String → String → ℤ → ℤ → ℤ → Tool
  click : String → ℤ → ℤ → String → ℤ → Tool
  press_chord : String → List String → Tool
  type_text press_key launch_app open_app tap_element find_element ask_screen :
      String → String → Tool
  list_apps : String → Bool → Tool
  tap : String → ℤ → ℤ → Tool
  wait : ℤ → Tool
  report_step_result : ℤ → String → String → Tool

-- The input deviceId of a tool.
unfoldable pub explicit_device : Tool → String
explicit_device (Tool.get_ui_tree ref) = ref
explicit_device (Tool.current_activity ref) = ref
explicit_device (Tool.scroll ref direction amount x y) = ref
explicit_device (Tool.click ref x y button count) = ref
explicit_device (Tool.press_chord ref keys) = ref
explicit_device (Tool.type_text ref s) = ref
explicit_device (Tool.press_key ref k) = ref
explicit_device (Tool.launch_app ref app) = ref
explicit_device (Tool.open_app ref name) = ref
explicit_device (Tool.tap_element ref description) = ref
explicit_device (Tool.find_element ref description) = ref
explicit_device (Tool.ask_screen ref question) = ref
explicit_device (Tool.list_apps ref third_party_only) = ref
explicit_device (Tool.tap ref x y) = ref
explicit_device _ = ""

pub record DeviceInfo : Type 0 where
  pub id : String
  pub name : String
  pub platform : Platform
  pub state : State
  pub device_id : String
  pub android : String

pub data Answer : Type 0 where
  devices : List DeviceInfo → Answer
  device : DeviceInfo → Answer
  tree : UiNode → Answer
  status : String → String → Answer
  packages : List Text → Answer
  activity : Text → Answer
  found : Option (ℤ × ℤ) → Answer
  answer : String → Answer
  recorded : Bool → Answer

unfoldable pub device_info : Instance → DeviceInfo
device_info i = record {
  id = i.id;
  name = i.name;
  platform = i.platform;
  state = i.state;
  device_id = i.device_id;
  android = i.android_version;
}

abbrev pub android_packages : List (String × String)
android_packages =
    ("settings", "com.android.settings")
    ∷ ("chrome", "com.android.chrome")
    ∷ ("browser", "com.android.chrome")
    ∷ ("clock", "com.android.deskclock")
    ∷ ("contacts", "com.android.contacts")
    ∷ ("phone", "com.android.dialer")
    ∷ ("dialer", "com.android.dialer")
    ∷ ("messages", "com.android.messaging")
    ∷ ("messaging", "com.android.messaging")
    ∷ ("camera", "com.android.camera2")
    ∷ ("calculator", "com.android.calculator2")
    ∷ ("files", "com.android.documentsui")
    ∷ ("gallery", "com.android.gallery3d")
    ∷ []
