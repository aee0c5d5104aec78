-- ===== src/DeviceWatch.antt =====
-- backend/internal/devicewatch: the state that one `adb devices` line stands for (parse.go), and
-- what the watcher writes for a physical device whose state changed (reconcile in devicewatch.go).
pub mod Written
pub mod Parsing
pub mod Polling
pub mod Sweeps
use open_cuttles.Go.Text.{Text}
use open_cuttles.Store.{update_instance_state, World, Context, Database}
use open_cuttles.Base.{
  str_eq, Bool, String, ◌+◌, ◌-◌, ◌*◌, ◌≡◌, ◌≢◌, ◌≤◌, ◌<◌, ◌&&◌, ◌||◌, ◌⊎◌, ◌∙◌, inl, inr, [], ◌∷◌,
  ◌++◌, if◌then◌else◌, ◌==◌, zero, suc, true, false, none, some, refl, sym, ap, arith,
}
use open_cuttles.Go.Strings.{codes, is_prefix}
use open_cuttles.Domain.{Instance, State}
use open_cuttles.Go.{◌>>=◌, ◌>>◌, ok, err}

pub data AdbState : Type 0 where
  device offline unauthorized no_permissions unknown : AdbState

has_prefix : Text → String → Bool
unfolding is_prefix codes
has_prefix text p = is_prefix (codes p) text

-- parseState
unfoldable pub parse_state : Text → AdbState
unfolding has_prefix
parse_state rest =
    if has_prefix rest "no permissions"
    then no_permissions
    else if has_prefix rest "unauthorized"
    then unauthorized
    else if has_prefix rest "offline"
    then offline
    else if has_prefix rest "device"
    then device
    else unknown

unfoldable pub wanted_state : AdbState → State
wanted_state device = State.online
wanted_state _ = State.offline

unfoldable pub wanted_message : AdbState → String
wanted_message device = ""
wanted_message unauthorized =
    "USB debugging is not authorized on the device — accept the prompt on its screen"
wanted_message no_permissions =
    "the appliance cannot access this device (udev rules or group membership)"
wanted_message offline = "device is offline"
wanted_message unknown = "device not visible to adb"

is_online : State → Bool
is_online State.online = true
is_online _ = false

is_offline : State → Bool
is_offline State.offline = true
is_offline _ = false

unfoldable pub same_reach : State → State → Bool
unfolding is_online is_offline
same_reach s State.online = is_online s
same_reach s State.offline = is_offline s
same_reach s _ = false

-- The stored state and message are those that are wanted.
unfoldable pub is_current : Instance → AdbState → Bool
unfolding wanted_state wanted_message same_reach
is_current i a = same_reach i.state (wanted_state a) && str_eq i.last_error (wanted_message a)

-- reconcile up to refreshDisplay
unfoldable pub write_reach : Database → Context → Instance → AdbState → World → World
unfolding is_current
write_reach d ctx i a w =
    if is_current i a
    then w
    else (update_instance_state d ctx i.id (wanted_state a) (wanted_message a) w).1

-- The text of a state is not the second word alone.
classified : parse_state (codes "no permissions (user in plugdev group)") ≡ no_permissions
unfolding parse_state codes
classified = refl
