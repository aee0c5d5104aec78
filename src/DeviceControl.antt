-- ===== src/DeviceControl.antt =====
-- backend/internal/devicecontrol/service.go: how an operation finds its device and reaches it, over
-- ADB or through the runner's tunnel. This file has the bench and the transport.
pub mod Readings
pub mod Hierarchy
pub mod Typing
pub mod Drivers
pub mod Operations
pub mod Installs
pub mod Effects
pub mod Reach
pub mod Actions
pub mod Aimed
pub mod Polling
pub mod Addressed
pub mod Resolvable
pub mod Waits
pub mod Sizes
pub mod Gestures
pub mod Retry
use open_cuttles.Base.Int.{pos, ℤ}
use open_cuttles.Go.{
  deadline_exceeded, error_text, pure, raise, message, wrapped, Exec, Error, Result, ◌>>=◌, ◌>>◌,
  ok, err,
}
use open_cuttles.Store.{
  setting, expired, number, Command, get_instance, word, advance, Context, Argument, World,
  Database,
}
use open_cuttles.Base.{
  Option, ltb, not, str_eq, leb, Bool, String, ℕ, List, ◌+◌, ◌-◌, ◌*◌, ◌≡◌, ◌≢◌, ◌≤◌, ◌<◌, ◌&&◌,
  ◌||◌, ◌⊎◌, ◌∙◌, inl, inr, [], ◌∷◌, ◌++◌, if◌then◌else◌, ◌==◌, zero, suc, true, false, none, some,
  refl, sym, ap, arith,
}
use open_cuttles.Go.Strings.{to_lower, codes, trim_space, contains, decimal}
use open_cuttles.Domain.{Instance, State, Source, source}
use Prim.Native.String.{◌++◌ as concat}
use open_cuttles.Orchestrator.{CommandResult}

-- A parameter of a call through the tunnel.
pub data Parameter : Type 0 where
  text : String → Parameter
  integer : ℤ → Parameter
  texts : List String → Parameter

pub record Call : Type 0 where
  pub device_id : String
  pub method : String
  pub parameters : List (String × Parameter)

-- The database, the clock and the commands are those of World; `calls` went through the tunnel.
pub record Lab : Type 0 where
  pub world : World
  pub calls : List Call

-- RunnerCaller: whether a runner is connected, and what it answers.
pub record Tunnel : Type 0 where
  pub is_online : ℕ → String → Bool
  pub reply : ℕ → Call → Result String

-- `execute` is OPENCUTTLES_EXECUTE_CVD=1; `tunnel` is none until SetRunners. `string_in` and
-- `strings_in` are json.Unmarshal of one field of a reply, the zero value where it is missing.
pub record Bench : Type 0 where
  pub database : Database
  pub execute : Bool
  pub stdout : ℕ → Command → String
  pub command_error : ℕ → Command → Option Error
  pub tunnel : Option Tunnel
  pub string_in : String → String → Result String
  pub strings_in : String → String → Result (List String)
  pub base64_decode : String → Result String

-- A store method, and a wait, in a lab.
unfoldable pub in_world : {A : Type 0} → Exec World A → Exec Lab A
in_world m l = let (r, w) = m l.world in (r, record l { world = w })

abbrev pub execution_disabled : Error
execution_disabled = message "device control requires OPENCUTTLES_EXECUTE_CVD=1"

abbrev pub not_running : Error
not_running = message "instance is not running"

-- fmt.Errorf("%w: text", ErrUnsupported)
abbrev pub unsupported : String → Error
unsupported s =
    wrapped "" (message "operation not supported for this device platform") (concat ": " s)

abbrev pub is_up : State → Bool
is_up State.online = true
is_up State.running = true
is_up _ = false

abbrev pub is_running : State → Bool
is_running State.running = true
is_running _ = false

unfoldable pub check_cuttlefish : Bench → Instance → Result (Unit {0})
check_cuttlefish b i =
    if not b.execute
    then err execution_disabled
    else if not (is_running i.state)
    then err not_running
    else if i.adb_port == 0
    then err (message (concat "instance " (concat i.id " has no ADB port")))
    else ok tt

unfoldable pub check_physical : Instance → Result (Unit {0})
unfolding trim_space
check_physical i =
    if str_eq (trim_space i.adb_target) ""
    then err (message (concat "device " (concat i.id " has no ADB target")))
    else if not (is_up i.state)
    then err not_running
    else ok tt

unfoldable pub check_runner : Instance → Result (Unit {0})
check_runner i =
    if str_eq i.control_endpoint ""
    then err (message (concat "device " (concat i.id " has no control endpoint")))
    else if not (is_up i.state)
    then err not_running
    else ok tt

unfoldable pub check_from : Source → Bench → Instance → Result (Unit {0})
unfolding check_cuttlefish check_physical check_runner
check_from Source.cuttlefish b i = check_cuttlefish b i
check_from Source.physical b i = check_physical i
check_from _ b i = check_runner i

unfoldable pub check_resolvable : Bench → Instance → Result (Unit {0})
unfolding check_from source
check_resolvable b i = check_from (source i) b i

unfoldable pub lift_result : {A : Type 0} → Result A → Exec Lab A
lift_result r l = (r, l)

unfoldable pub resolve : Bench → Context → String → Exec Lab Instance
unfolding check_resolvable lift_result in_world
resolve b ctx id = do
  i ← in_world (get_instance b.database ctx id)
  lift_result (check_resolvable b i)
  pure i

-- context.WithTimeout of a parent
unfoldable pub within : Context → ℕ → World → Context
within none ms w = some (w.now + ms)
within (some deadline) ms w = some (if leb deadline (w.now + ms) then deadline else w.now + ms)

abbrev pub interactive_timeout : ℕ
interactive_timeout = 30000

abbrev pub shell_timeout : ℕ
shell_timeout = 60000

-- adbTarget
unfoldable pub adb_address : Instance → Result String
unfolding trim_space decimal
adb_address i =
    if not (str_eq (trim_space i.adb_target) "")
    then ok (trim_space i.adb_target)
    else if ltb 0 i.adb_port
    then ok (concat "127.0.0.1:" (decimal (pos i.adb_port)))
    else err (unsupported (concat "device " (concat i.id " has no ADB address")))

-- s.runner.Run with `adb` and no input
unfoldable pub invoke : Bench → Context → List Argument → Exec Lab CommandResult
invoke b ctx arguments l =
    let c : Command = record { dir = ""; program = "adb"; arguments = arguments } in
    let after = advance b.database l.world in
    let failure =
      if expired ctx after.now then some deadline_exceeded else b.command_error l.world.tick c in
    (
      ok (record { output = b.stdout l.world.tick c; failure = failure }),
      record l { world = record after { commands = l.world.commands ++ c ∷ [] } },
    )

unfoldable pub is_tcp_target : String → Bool
unfolding contains codes
is_tcp_target target = contains (codes target) (codes ":")

unfoldable pub is_device_not_found : String → Error → Bool
unfolding contains codes to_lower
is_device_not_found output e =
    let combined = to_lower (codes (concat output (concat " " (error_text e)))) in
    contains combined (codes "not found")
    || contains combined (codes "device offline")
    || contains combined (codes "no devices/emulators found")

unfoldable pub argument_text : Argument → String
unfolding decimal
argument_text (word s) = s
argument_text (number prefix n) = concat prefix (decimal n)
argument_text (setting name value) = concat name value

-- strings.Join with a space
unfoldable pub join_words : List Argument → String
unfolding argument_text
join_words [] = ""
join_words (a ∷ []) = argument_text a
join_words (a ∷ b ∷ rest) = concat (argument_text a) (concat " " (join_words (b ∷ rest)))

-- The answer of `adb` from the last attempt.
unfoldable pub conclude : List Argument → CommandResult → Exec Lab String
unfolding join_words trim_space
conclude arguments r = elim r.failure [
  | none ↦ pure r.output
  | some e ↦ raise (
      wrapped (concat "adb " (concat (join_words arguments) ": ")) e
        (concat ": " (trim_space r.output)))
]

unfoldable pub to_device : String → List Argument → List Argument
to_device target arguments = word "-s" ∷ word target ∷ arguments

-- One reconnection and one more attempt, for a TCP target that adb does not know.
unfoldable pub reconnect :
    Bench → Context → String → List Argument → CommandResult → Exec Lab String
unfolding conclude to_device
reconnect b ctx target arguments first = do
  connection ← invoke b ctx (word "connect" ∷ word target ∷ [])
  elim connection.failure [
    | some _ ↦ conclude arguments first
    | none ↦ do second ← invoke b ctx (to_device target arguments); conclude arguments second
  ]

unfoldable pub adb_at : Bench → Context → String → List Argument → Exec Lab String
unfolding conclude to_device reconnect is_tcp_target is_device_not_found
adb_at b ctx target arguments = do
  first ← invoke b ctx (to_device target arguments)
  elim first.failure [
    | none ↦ pure first.output
    | some e ↦
        (if is_tcp_target target && is_device_not_found first.output e
          then reconnect b ctx target arguments first
          else conclude arguments first)
  ]

abbrev pub is_runner : Source → Bool
is_runner Source.runner = true
is_runner _ = false

unfoldable pub adb : Bench → Context → Instance → List Argument → Exec Lab String
unfolding adb_at adb_address source lift_result
adb b ctx i arguments =
    if is_runner (source i)
    then raise (unsupported "ADB operations need an ADB-reachable device")
    else do target ← lift_result (adb_address i); adb_at b ctx target arguments

-- adbShell: trimmed output
unfoldable pub adb_shell : Bench → Context → Instance → List Argument → Exec Lab String
unfolding adb trim_space
adb_shell b ctx i arguments = do out ← adb b ctx i (word "shell" ∷ arguments); pure (trim_space out)

unfoldable pub call_tunnel : Bench → Tunnel → Context → Call → Exec Lab String
call_tunnel b t ctx c l =
    let after = advance b.database l.world in
    let reply = if expired ctx after.now then err deadline_exceeded else t.reply l.world.tick c in
    (reply, record { world = after; calls = l.calls ++ c ∷ [] })
