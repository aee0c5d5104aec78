-- ===== src/DeviceControl/Resolvable.antt =====
-- Which devices can be driven.
use open_cuttles.DeviceControl.{
  check_from, is_up, is_running, Bench, check_cuttlefish, check_physical, check_runner,
  check_resolvable,
}
use open_cuttles.Go.Strings.{trim_space}
use open_cuttles.Base.{eq_iff, ◌↔◌, ◌≡◌, ◌≢◌, ◌⊎◌, true, arith}
use open_cuttles.Domain.{Source, Instance, source, State}
use open_cuttles.Go.{ok}

abbrev pub IsUp : State → Type 0
IsUp s = (s ≡ State.online) ⊎ (s ≡ State.running)

is_up_iff : (s : State) → (is_up s ≡ true) ↔ IsUp s
is_up_iff s = ground arith

is_running_iff : (s : State) → (is_running s ≡ true) ↔ (s ≡ State.running)
is_running_iff s = ground arith

cuttlefish_iff :
    (b : Bench) (i : Instance)
    → (check_cuttlefish b i ≡ ok tt)
      ↔ ((b.execute ≡ true) × (i.state ≡ State.running) × (i.adb_port ≢ 0))
unfolding check_cuttlefish
cuttlefish_iff b i = ground (arith, is_running_iff i.state)

physical_iff :
    (i : Instance) → (check_physical i ≡ ok tt) ↔ ((trim_space i.adb_target ≢ "") × IsUp i.state)
unfolding check_physical
physical_iff i = ground (arith, is_up_iff i.state, eq_iff (trim_space i.adb_target) "")

runner_iff : (i : Instance) → (check_runner i ≡ ok tt) ↔ ((i.control_endpoint ≢ "") × IsUp i.state)
unfolding check_runner
runner_iff i = ground (arith, is_up_iff i.state, eq_iff i.control_endpoint "")

-- A device can be driven exactly if it is a Cuttlefish device, execution is enabled, it is running
-- and it has an ADB port; or a physical device that has an ADB target and is online or running; or
-- a desktop that has a control endpoint and is online or running.
pub check_resolvable_iff :
    (b : Bench) (i : Instance)
    → (check_resolvable b i ≡ ok tt) ↔ (
        ((source i ≡ Source.cuttlefish)
          × (b.execute ≡ true)
          × (i.state ≡ State.running)
          × (i.adb_port ≢ 0))
        ⊎ ((source i ≡ Source.physical) × (trim_space i.adb_target ≢ "") × IsUp i.state)
        ⊎ ((source i ≡ Source.runner) × (i.control_endpoint ≢ "") × IsUp i.state))
unfolding check_resolvable check_from source
check_resolvable_iff b i = ground (arith, cuttlefish_iff b i, physical_iff i, runner_iff i)
