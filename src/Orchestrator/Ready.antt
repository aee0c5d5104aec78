-- ===== src/Orchestrator/Ready.antt =====
-- Service.waitReady, waitWebRTC, discoverDeviceID and finalizeConsole. A round of either loop
-- sleeps for a fixed time, so the number of rounds before its deadline is the fuel given.
pub mod Fuel
use Prim.Native.String.{◌++◌ as concat}
use open_cuttles.Base.{
  ℕ, zero, suc, ◌+◌, String, Bool, true, false, not, ◌&&◌, Option, none, some, List, [], ◌∷◌, ltb,
  ◌==◌, str_eq, first, if◌then◌else◌,
}
use open_cuttles.Go.{message, wrapped, ok, Exec, pure, raise, attempt, ◌>>=◌, ◌>>◌}
use open_cuttles.Go.Strings.{trim_space, decimal}
use open_cuttles.Domain.{Instance}
use open_cuttles.Store.{World, Context, word, expired, advance, update_instance_console}
use open_cuttles.Orchestrator.{Machine, OperatorDevice, CommandResult, run, sleep, instance_number}
use open_cuttles.Orchestrator.Tools.{adb_target}

-- client.Get of the operator's address: the status, if there is an answer in time
unfoldable pub get_status : Machine → Context → Exec World (Option ℕ)
get_status m ctx w =
    let after = advance m.database w in
    (ok (if expired ctx after.now then none else m.http_status w.tick), after)

unfoldable pub answered : Option ℕ → Bool
answered none = false
answered (some status) = ltb status 500

-- The loop of waitWebRTC
unfoldable pub wait_web_rtc_from : ℕ → Machine → Context → ℕ → Exec World Unit
unfolding answered
wait_web_rtc_from zero m ctx deadline w =
    raise (message "timed out waiting for Cuttlefish WebRTC endpoint") w
wait_web_rtc_from (suc n) m ctx deadline w = elim (ltb w.now deadline) [
  | false ↦ raise (message "timed out waiting for Cuttlefish WebRTC endpoint") w
  | true ↦
      (do
        status ← get_status m ctx
        elim (answered status) [
          | true ↦ pure tt
          | false ↦ do sleep ctx 2000; wait_web_rtc_from n m ctx deadline
        ])
        w
]

unfoldable pub wait_web_rtc : Machine → Context → Exec World Unit
wait_web_rtc m ctx w = wait_web_rtc_from 23 m ctx (w.now + 45000) w

unfoldable pub boot_completed : CommandResult → Bool
boot_completed r = elim r.failure [ none ↦ str_eq (trim_space r.output) "1" | some e ↦ false ]

-- The loop of waitReady
unfoldable pub wait_boot_from : ℕ → Machine → Context → Instance → ℕ → Exec World Unit
unfolding boot_completed adb_target
wait_boot_from zero m ctx i deadline w =
    raise (message "timed out waiting for Android boot completion") w
wait_boot_from (suc n) m ctx i deadline w = elim (ltb w.now deadline) [
  | false ↦ raise (message "timed out waiting for Android boot completion") w
  | true ↦
      (do
        r ← run m ctx "adb" (
            word "-s"
            ∷ adb_target i
            ∷ word "shell"
            ∷ word "getprop"
            ∷ word "sys.boot_completed"
            ∷ [])
        elim (boot_completed r) [
          | true ↦ wait_web_rtc m ctx
          | false ↦ do sleep ctx 3000; wait_boot_from n m ctx i deadline
        ])
        w
]

unfoldable pub wait_boot : Machine → Context → Instance → Exec World Unit
wait_boot m ctx i w = wait_boot_from 80 m ctx i (w.now + 240000) w

unfoldable pub connected : CommandResult → Exec World Unit
connected r = elim r.failure [
  | none ↦ pure tt
  | some e ↦ raise (wrapped "adb connect failed: " e (concat ": " r.output))
]

unfoldable pub wait_ready : Machine → Context → Instance → Exec World Unit
unfolding wait_boot connected adb_target
wait_ready m ctx i =
    if not m.live
    then pure tt
    else do r ← run m ctx "adb" (word "connect" ∷ adb_target i ∷ []); connected r; wait_boot m ctx i

unfoldable pub group_of : Instance → String
group_of i = concat "cvd_" (decimal (instance_number i.adb_port))

-- The first entry with the port, else the first of the group; entries without an id do not count.
unfoldable pub match_device : Instance → List OperatorDevice → Option String
unfolding group_of
match_device i devices =
    elim (first (λ d. (d.adb_port == i.adb_port) && not (str_eq d.device_id "")) devices) [
      | some d ↦ some d.device_id
      | none ↦
          elim (first (λ d. str_eq d.group_name (group_of i) && not (str_eq d.device_id ""))
            devices) [ some d ↦ some d.device_id | none ↦ none ]
    ]

-- Service.discoverDeviceID
unfoldable pub discover_device_id : Machine → Instance → Exec World (Option String)
unfolding match_device
discover_device_id m i w = (
  ok (elim (m.operator_devices w.tick) [ none ↦ none | some devices ↦ match_device i devices ]),
  advance m.database w,
)

-- ConsoleClientURL
unfoldable pub console_client_url : String → String → String
console_client_url id device =
    concat "/api/v1/instances/"
      (concat id (concat "/console/devices/" (concat device "/files/client.html")))

unfoldable pub record_console : Machine → Context → Instance → Option String → Exec World Unit
record_console m ctx i none = pure tt
record_console m ctx i (some device) = do
  attempt (update_instance_console m.database ctx i.id device (console_client_url i.id device))
  pure tt

-- Service.finalizeConsole: best effort
unfoldable pub finalize_console : Machine → Context → Instance → Exec World Unit
unfolding record_console
finalize_console m ctx i =
    if not m.live then pure tt else do found ← discover_device_id m i; record_console m ctx i found
