-- ===== src/Mcp.antt =====
-- backend/internal/mcp/server.go: the tools that an agent calls. This file has the state of the
-- service, the run that a device is bound to, and how a call finds its device.
pub mod Tools
pub mod Handlers
pub mod Calls
pub mod Report
pub mod Acting
pub mod Targets
pub mod Handled
pub mod Resolved
pub mod Aimed
pub mod Reached
pub mod Worded
pub mod Reported
use Prim.Native.String.{◌++◌ as concat}
use open_cuttles.Go.{
  branch, deadline_exceeded, raise, message, pure, Error, Result, Exec, ◌>>=◌, ◌>>◌, ok, err,
}
use open_cuttles.DeviceControl.Drivers.{is_android}
use open_cuttles.Scheduler.{is_up}
use open_cuttles.Store.{list_instances, get_instance, expired, advance, Context}
use open_cuttles.Base.{
  keep, not, Bool, Option, str_eq, String, ℕ, List, ◌+◌, ◌-◌, ◌*◌, ◌≡◌, ◌≢◌, ◌≤◌, ◌<◌, ◌&&◌, ◌||◌,
  ◌⊎◌, ◌∙◌, inl, inr, [], ◌∷◌, ◌++◌, if◌then◌else◌, ◌==◌, zero, suc, true, false, none, some, refl,
  sym, ap, arith,
}
use open_cuttles.DeviceControl.{in_world, text, Lab, Bench}
use open_cuttles.Domain.{Instance, Platform}
use open_cuttles.DeviceControl.Hierarchy.{XmlNodes}
use open_cuttles.Go.Text.{Text}
use open_cuttles.Base.Int.{ℤ}
use open_cuttles.CaseStore.{Archive, Ledger}

-- boundRun: the run that a device's reports are written to.
pub record BoundRun : Type 0 where
  pub run_id : String
  pub run_dir : String
  pub steps : ℕ
  pub step_texts : List String

-- The service with the device control, and the store, that it calls.
pub record Desk : Type 0 where
  pub lab : Lab
  pub archive : Archive
  pub active : String
  pub runs : List (String × BoundRun)

-- vision.Client: Locate and Query, which answer at a tick for a screenshot and a text.
pub record Vision : Type 0 where
  pub locate : ℕ → String → String → Result (List (ℕ → ℕ → ℤ × ℤ))
  pub query : ℕ → String → String → Result String

-- `vqa` is SetVQA and `has_sink` SetSink; `decode_config` is png.DecodeConfig, `unmarshal` the XML
-- decoder, `write_file` whether os.WriteFile succeeds, `quote` the verb %q.
pub record Gear : Type 0 where
  pub bench : Bench
  pub vision : Option Vision
  pub vqa : Option (ℕ → String → String → Result String)
  pub has_sink : Bool
  pub decode_config : String → Result (ℕ × ℕ)
  pub unmarshal : Text → Result XmlNodes
  pub write_file : String → String → String → Bool
  pub quote : String → String

unfoldable pub in_lab : {A : Type 0} → Exec Lab A → Exec Desk A
in_lab m s = let (r, l) = m s.lab in (r, record s { lab = l })

unfoldable pub in_ledger : {A : Type 0} → Exec Ledger A → Exec Desk A
in_ledger m s =
    let (r, l) = m (record { world = s.lab.world; archive = s.archive }) in
    (r, record s { lab = record s.lab { world = l.world }; archive = l.archive })

unfoldable pub set_active : String → Desk → Desk
set_active id s = record s { active = id }

unfoldable pub unbound : String → List (String × BoundRun) → List (String × BoundRun)
unbound id [] = []
unbound id ((k, r) ∷ rest) = if str_eq k id then unbound id rest else (k, r) ∷ unbound id rest

unfoldable pub bound_to : String → List (String × BoundRun) → Option BoundRun
bound_to id [] = none
bound_to id ((k, r) ∷ rest) = if str_eq k id then some r else bound_to id rest

unfoldable pub bind_run : String → String → String → List String → Desk → Desk
unfolding unbound
bind_run id run_id run_dir step_texts s = record s {
  runs =
      (id, record { run_id = run_id; run_dir = run_dir; steps = 0; step_texts = step_texts })
      ∷ unbound id s.runs;
}

unfoldable pub unbind_run : String → Desk → Desk
unfolding unbound
unbind_run id s = record s { runs = unbound id s.runs }

unfoldable pub reachable : List Instance → List Instance
reachable rows = keep (λ i. is_up i.state) rows

unfoldable pub only_one : List Instance → Result String
only_one (i ∷ []) = ok i.id
only_one _ = err (
    message
      "no active device selected; call select_device with a device id (list_devices to see options)")

unfoldable pub answer_with : {A : Type 0} → Result A → Exec Desk A
answer_with r s = (r, s)

abbrev platform_text : Platform → String
platform_text Platform.unset = ""
platform_text Platform.android = "android"
platform_text Platform.windows = "windows"
platform_text Platform.linux = "linux"
platform_text Platform.macos = "macos"

abbrev desktop_only : Platform → Error
desktop_only p = message (
    concat "this device is a " (
      concat (platform_text p) (
        concat
          " DESKTOP, not Android — this particular tool (package launch / accessibility UI tree) is Android-only."
          (concat " Instead: OPEN an app with open_app {name}; LIST apps with list_apps;"
            " READ the screen with ask_screen; CLICK with tap_element. Those all work on this desktop"))))

module _ (g : Gear) (ctx : Context) where
  unfoldable pub sole_device : Exec Desk String
  unfolding in_lab in_world reachable only_one answer_with list_instances
  sole_device = do
    rows ← in_lab (in_world (list_instances g.bench.database ctx))
    answer_with (only_one (reachable rows))

  unfoldable pub unknown_device : String → Error
  unknown_device id = message (
      concat "no device with id " (
        concat (g.quote id) (
          concat
            " — do not guess or invent device ids. You already operate on the active device, so omit deviceId."
            " Only use list_devices/select_device when the user names a specific other device")))

  unfoldable pub named_device : String → Exec Desk String
  unfolding in_lab in_world get_instance unknown_device
  named_device id s =
      branch (in_lab (in_world (get_instance g.bench.database ctx id)) s)
        (λ e. raise (unknown_device id)) (λ i. pure id)

  unfoldable pub resolve_device : String → Exec Desk String
  unfolding sole_device named_device
  resolve_device explicit s =
      if not (str_eq explicit "")
      then named_device explicit s
      else if not (str_eq s.active "")
      then pure s.active s
      else sole_device s

  unfoldable pub require_android : String → Exec Desk (Unit {0})
  unfolding in_lab in_world get_instance is_android
  require_android id = do
    i ← in_lab (in_world (get_instance g.bench.database ctx id))
    (if is_android i.platform then pure tt else raise (desktop_only i.platform))

  -- A handler's start: the device it acts on.
  unfoldable pub targeted : {A : Type 0} → String → (String → Exec Desk A) → Exec Desk A
  unfolding resolve_device
  targeted explicit body = resolve_device explicit >>= body

  -- A call of a model, which answers at this tick.
  unfoldable pub ask_model : {A : Type 0} → (ℕ → Result A) → Exec Lab A
  ask_model answer l =
      let after = advance g.bench.database l.world in
      (
        (if expired ctx after.now then err deadline_exceeded else answer l.world.tick),
        record l { world = after },
      )
