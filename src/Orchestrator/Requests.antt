-- ===== src/Orchestrator/Requests.antt =====
-- StartInstance, Deploy, StopInstance and DeleteInstance. The goroutine that a request starts is
-- its result, beside the operation that the caller is told of.
pub mod Guards
pub mod Deletion
use open_cuttles.Go.{Error, pure, ◌>>=◌, ◌>>◌, message, raise, Exec}
use open_cuttles.Orchestrator.{update_instance_state, is_possibly_live, World, Context, Machine}
use open_cuttles.Base.{not, if◌then◌else◌, true, false, Bool}
use open_cuttles.Store.{create_operation, get_instance}
use open_cuttles.Orchestrator.Jobs.{Job}
use open_cuttles.Domain.{Operation, State, error, deleting, starting, stopped}
use Prim.Native.String.{String, ◌++◌ as concat}

unfoldable pub state_text : State → String
state_text State.provisioning = "provisioning"
state_text State.starting = "starting"
state_text State.booting = "booting"
state_text State.running = "running"
state_text State.stopping = "stopping"
state_text State.stopped = "stopped"
state_text State.error = "error"
state_text State.deleting = "deleting"
state_text State.online = "online"
state_text State.offline = "offline"

unfoldable pub is_startable : State → Bool
is_startable State.stopped = true
is_startable State.error = true
is_startable _ = false

abbrev pub is_deleting : State → Bool
is_deleting State.deleting = true
is_deleting _ = false

-- The error `cannot … instance from state %q`
abbrev pub refusal : String → State → Error
refusal verb s =
    message (
      concat "cannot "
        (concat verb (concat " instance from state \"" (concat (state_text s) "\""))))

-- Service.StartInstance
unfoldable pub start_instance : Machine → Context → String → Exec World (Operation × Job)
unfolding state_text
start_instance m ctx id = do
  current ← get_instance m.database ctx id
  if not (is_startable current.state) then raise (refusal "start" current.state) else do
    operation ← create_operation m.database ctx id "start" "starting Cuttlefish instance"
    update_instance_state m.database ctx id State.starting ""
    pure (operation, Job.start id operation.id)

-- Service.Deploy
unfoldable pub deploy_instance : Machine → Context → String → Exec World (Operation × Job)
unfolding state_text
deploy_instance m ctx id = do
  current ← get_instance m.database ctx id
  if not (is_startable current.state) then raise (refusal "deploy" current.state) else do
    operation ← create_operation m.database ctx id "deploy" "deploying Android instance"
    update_instance_state m.database ctx id State.provisioning ""
    pure (operation, Job.deploy id operation.id)

-- Service.StopInstance
unfoldable pub stop_instance : Machine → Context → String → Exec World (Operation × Job)
unfolding state_text
stop_instance m ctx id = do
  current ← get_instance m.database ctx id
  if not (is_possibly_live current.state) then raise (refusal "stop" current.state) else do
    operation ← create_operation m.database ctx id "stop" "stopping Cuttlefish instance"
    device ← update_instance_state m.database ctx id State.stopping ""
    pure (operation, Job.stop_device id operation.id device)

-- Service.DeleteInstance
unfoldable pub delete_device : Machine → Context → String → Exec World (Operation × Job)
delete_device m ctx id = do
  current ← get_instance m.database ctx id
  if is_deleting current.state then raise (message "instance is already deleting") else do
    operation ← create_operation m.database ctx id "delete" "deleting Cuttlefish instance"
    device ← update_instance_state m.database ctx id State.deleting ""
    pure (operation, Job.delete id operation.id device)

pub data Request : Type 0 where
  start deploy stop delete : Request

unfoldable pub submit : Request → Machine → Context → String → Exec World (Operation × Job)
unfolding start_instance deploy_instance stop_instance delete_device
submit Request.start = start_instance
submit Request.deploy = deploy_instance
submit Request.stop = stop_instance
submit Request.delete = delete_device
