-- ===== src/Orchestrator.antt =====
-- backend/internal/orchestrator: provisioned (Cuttlefish) devices, from the request to the
-- goroutine that carries it out. This file has what the host provides and the shared helpers.
pub mod Tools
pub mod Ready
pub mod Quiet
pub mod Jobs
pub mod Requests
pub mod Reconcile
use open_cuttles.Base.{
  ℕ, ◌+◌, ◌*◌, String, Bool, true, false, Option, none, some, List, [], ◌∷◌, ◌++◌, leb,
  if◌then◌else◌,
}
use open_cuttles.Base.Int.{ℤ, sub_ℕ}
use open_cuttles.Go.{Error, deadline_exceeded, Result, ok, err, Exec}
use open_cuttles.Domain.{State, starting, booting, running, stopping, error, OperationStatus}
use open_cuttles.Store.{
  World, Database, Context, Command, Argument, expired, advance, update_instance_state,
  finish_operation,
}
use open_cuttles.Store.ImagePath.{FileSystem, annotate}

-- One entry of the operator's /devices answer.
pub record OperatorDevice : Type 0 where
  pub device_id : String
  pub group_name : String
  pub adb_port : ℕ

-- The host: the database, the file system, the programs on PATH, what a command prints at a tick
-- and whether it fails, and the cuttlefish-operator's answers (`none` for no answer).
pub record Machine : Type 0 where
  pub database : Database
  pub open database use *
  pub fs : FileSystem
  -- OPENCUTTLES_EXECUTE_CVD=1
  pub live : Bool
  pub instance_root : String
  pub look_path : String → Bool
  pub mkdir_all : String → Option Error
  pub entry_count : String → Option ℕ
  pub command_output : ℕ → Command → String
  pub command_error : ℕ → Command → Option Error
  pub http_status : ℕ → Option ℕ
  pub operator_devices : ℕ → Option (List OperatorDevice)

-- What a command printed, and its error.
pub record CommandResult : Type 0 where
  pub output : String
  pub failure : Option Error

-- exec.CommandContext kills a command when its context expires.
abbrev pub command_result : Machine → Context → World → Command → CommandResult
command_result m ctx w c = record {
  output = m.command_output w.tick c;
  failure =
      if expired ctx (advance m.database w).now
      then some deadline_exceeded
      else m.command_error w.tick c;
}

-- ExecRunner.RunInDir
unfoldable pub run_in_dir :
    Machine → Context → String → String → List Argument → Exec World CommandResult
run_in_dir m ctx dir program arguments w =
    let c : Command = record { dir = dir; program = program; arguments = arguments } in
    (
      ok (command_result m ctx w c),
      record (advance m.database w) { commands = w.commands ++ c ∷ [] },
    )

-- ExecRunner.Run
unfoldable pub run : Machine → Context → String → List Argument → Exec World CommandResult
unfolding run_in_dir
run m ctx program arguments = run_in_dir m ctx "" program arguments

-- `select { case <-ctx.Done(): …; case <-time.After(d): }`
unfoldable pub sleep : Context → ℕ → Exec World Unit
sleep none ms w = (ok tt, record w { now = w.now + ms })
sleep (some deadline) ms w =
    if leb deadline (w.now + ms)
    then (err deadline_exceeded, record w { now = if leb deadline w.now then w.now else deadline })
    else (ok tt, record w { now = w.now + ms })

unfoldable pub with_timeout : World → ℕ → Context
with_timeout w ms = some (w.now + ms)

unfoldable pub lift : {A : Type 0} → Result A → Exec World A
lift r w = (r, w)

-- fmt.Errorf("text: %w", err)
unfoldable pub annotated : {A : Type 0} → String → Exec World A → Exec World A
annotated text m w = let (r, w') = m w in (annotate text r, w')

-- Service.setState: the error is logged, and the caller goes on.
unfoldable pub set_state : Machine → Context → String → State → String → World → World
set_state m ctx id s text w = (update_instance_state m.database ctx id s text w).1

-- Service.finishOp
unfoldable pub finish_op : Machine → Context → String → OperationStatus → String → World → World
finish_op m ctx id s text w = (finish_operation m.database ctx id s text w).1

unfoldable pub is_possibly_live : State → Bool
is_possibly_live starting = true
is_possibly_live booting = true
is_possibly_live running = true
is_possibly_live stopping = true
is_possibly_live error = true
is_possibly_live _ = false

-- instance.ADBPort - 6520 + 1, in Go's signed arithmetic
unfoldable pub instance_number : ℕ → ℤ
instance_number port = sub_ℕ (port + 1) 6520
