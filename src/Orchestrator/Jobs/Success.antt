-- ===== src/Orchestrator/Jobs/Success.antt =====
-- What an operation that a job marks succeeded has left.
use open_cuttles.Orchestrator.Jobs.{Job, start, deploy, stop_device, delete}
use open_cuttles.Domain.{State, running, stopped, Instance, succeeded}
use mathlib.Core.Option
use open_cuttles.Orchestrator.{Machine}
use open_cuttles.Store.{World, Tables}
use open_cuttles.Orchestrator.Jobs.Evidence.{IsHalted, IsLaunched, IsBooted}
use open_cuttles.Base.{String, ◌≡◌, ◌≢◌, Option, none, some}
use open_cuttles.Store.Keeps.{Keeps}
use open_cuttles.Store.Laws.{status_in, state_in}

-- Where the operation reads succeeded, the tables are as promised.
abbrev pub IsHonest : String → (Tables → Type 0) → World → Type 0
IsHonest op P w = status_in op w.tables ≡ some succeeded → P w.tables

abbrev pub IsOpen : String → Tables → Type 0
IsOpen op t = status_in op t ≢ some succeeded

abbrev pub IsIn : State → String → Tables → Type 0
IsIn s id t = state_in id t ≡ some s

-- What the success of a start or a deploy promises: the row, the launch and the boot.
abbrev pub IsStarted : Machine → String → Tables → Type 0
IsStarted m id t = IsIn running id t × IsLaunched m id × IsBooted m id

-- What the success of a stop promises: the row, and the command.
abbrev pub IsStopped : Machine → String → Instance → Tables → Type 0
IsStopped m id i t = IsIn stopped id t × IsHalted m i

-- After a delete the table has no row for the device.
abbrev pub IsGone : String → Tables → Type 0
IsGone id t = state_in id t ≡ none

-- What the success of a job promises of the tables.
abbrev pub Promised : Machine → Job → Tables → Type 0
Promised m (start id op) = IsStarted m id
Promised m (deploy id op) = IsStarted m id
Promised m (stop_device id op i) = IsStopped m id i
Promised m (delete id op i) = IsGone id
