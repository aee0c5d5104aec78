-- ===== src/Mcp/Calls.antt =====
-- backend/internal/mcp/server.go: registerTools, the handler of each tool.
use open_cuttles.Mcp.Handlers.{
  look_and_answer, scroll_at, tap_found, open_named, locate, launch_package, wait_for,
}
use open_cuttles.Go.{message, raise, branch, pure, Exec, ◌>>=◌, ◌>>◌, ok}
use open_cuttles.Base.{map, String, if◌then◌else◌}
use open_cuttles.Mcp.Tools.{explicit_device, Answer, Tool, device_info}
use open_cuttles.Go.Text.{is_empty}
use open_cuttles.Domain.{Instance}
use open_cuttles.Mcp.{Desk, set_active, resolve_device, targeted, in_lab, require_android, Gear}
use open_cuttles.DeviceControl.{Lab, in_world}
use open_cuttles.Store.{get_instance, list_instances, Context}
use open_cuttles.DeviceControl.Operations

module _ (g : Gear) (ctx : Context) where
  unfoldable pub known_device : String → Exec Desk Instance
  unfolding in_lab in_world get_instance
  known_device id = in_lab (in_world (get_instance g.bench.database ctx id))

  unfoldable pub select_device : String → Exec Desk Answer
  unfolding known_device device_info set_active
  select_device id s =
      branch (known_device id s) (λ e. raise e)
        (λ i t. (ok (Answer.device (device_info i)), set_active i.id t))

  unfoldable pub list_devices : Exec Desk Answer
  unfolding in_lab in_world list_instances device_info
  list_devices = do
    rows ← in_lab (in_world (open_cuttles.Store.list_instances g.bench.database ctx))
    pure (Answer.devices (map device_info rows))

  unfoldable pub get_active_device : Exec Desk Answer
  unfolding known_device device_info resolve_device
  get_active_device = do
    id ← resolve_device g ctx ""
    i ← known_device id
    pure (Answer.device (device_info i))

  -- A gesture answers that it went well, and on which device.
  unfoldable pub done_on : String → Exec Lab (Unit {0}) → Exec Desk Answer
  unfolding in_lab
  done_on id m = do in_lab m; pure (Answer.status "ok" id)

  unfoldable pub android_only : {A : Type 0} → String → Exec Desk A → Exec Desk A
  unfolding require_android
  android_only id body = do require_android g ctx id; body

  unfoldable pub tap_described : String → String → Exec Lab (Unit {0})
  unfolding locate tap_found
  tap_described id description = do
    at ← locate g ctx id description
    tap_found g ctx id description at

  unfoldable pub read_tree : String → Exec Desk Answer
  unfolding in_lab open_cuttles.DeviceControl.Operations.ui_tree
  read_tree id = do
    tree ← in_lab (Operations.ui_tree g.bench ctx id g.unmarshal)
    pure (Answer.tree tree)

  -- What the handler of a tool does on the device that was found.
  unfoldable pub act_on : Tool → String → Exec Desk Answer
  unfolding done_on android_only tap_described read_tree launch_package open_named scroll_at
      look_and_answer locate in_lab
  act_on (Tool.get_ui_tree ref) id = android_only id (read_tree id)
  act_on (Tool.scroll ref direction amount x y) id =
      done_on id (scroll_at g ctx id direction amount x y)
  act_on (Tool.click ref x y button count) id =
      done_on id (Operations.click g.bench ctx id x y button count)
  act_on (Tool.press_chord ref keys) id =
      if is_empty keys
      then raise (message "press_chord needs a non-empty keys array, e.g. [\"CTRL\",\"C\"]")
      else done_on id (Operations.press_chord g.bench ctx id keys)
  act_on (Tool.type_text ref s) id = done_on id (Operations.type_text g.bench ctx id s)
  act_on (Tool.press_key ref k) id = done_on id (Operations.press_key g.bench ctx id k)
  act_on (Tool.launch_app ref app) id = android_only id (done_on id (launch_package g ctx id app))
  act_on (Tool.open_app ref name) id = do
    said ← in_lab (open_named g ctx id name)
    pure (Answer.status said id)
  act_on (Tool.list_apps ref third_party_only) id = do
    names ← in_lab (Operations.list_apps g.bench ctx id third_party_only)
    pure (Answer.packages names)
  act_on (Tool.current_activity ref) id = do
    name ← in_lab (Operations.current_activity g.bench ctx id)
    pure (Answer.activity name)
  act_on (Tool.tap_element ref description) id = done_on id (tap_described id description)
  act_on (Tool.tap ref x y) id = done_on id (Operations.tap g.bench ctx id x y)
  act_on (Tool.find_element ref description) id = do
    at ← in_lab (locate g ctx id description)
    pure (Answer.found at)
  act_on (Tool.ask_screen ref question) id = do
    said ← in_lab (look_and_answer g ctx id question)
    pure (Answer.answer said)
  act_on _ id = raise (message "")

  -- The tools that act on no device, or find theirs by themselves.
  unfoldable pub call_tool : Tool → Exec Desk Answer
  unfolding select_device list_devices get_active_device wait_for in_lab
      open_cuttles.Mcp.Report.report_step_result targeted act_on
  call_tool Tool.list_devices = list_devices
  call_tool Tool.get_active_device = get_active_device
  call_tool (Tool.select_device id) = select_device id
  call_tool (Tool.wait ms) = do in_lab (wait_for g ctx ms); pure (Answer.status "ok" "")
  call_tool (Tool.report_step_result index status note) = do
    was ← open_cuttles.Mcp.Report.report_step_result g ctx index status note
    pure (Answer.recorded was)
  call_tool t = targeted g ctx (explicit_device t) (act_on t)
