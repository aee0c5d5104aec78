-- ===== src/Examples/Devices.antt =====
-- The theorems about devices, applied.
use open_cuttles.DeviceWatch.Written.{Reads, write_reach-is_current}
use open_cuttles.DeviceWatch.{AdbState, write_reach}
use open_cuttles.Base.{some, All, ◌≡◌, ◌<◌, [], ◌∷◌, true, none, refl, arith}
use open_cuttles.Domain.{Source, State, Instance, Operation}
use open_cuttles.Orchestrator.Ready.Fuel.{wait_boot-fuel}
use open_cuttles.Orchestrator.Ready.{wait_web_rtc, wait_web_rtc_from, wait_boot, wait_boot_from}
use open_cuttles.Orchestrator.{run_in_dir, with_timeout, Machine}
use open_cuttles.Store.{
  run_or_fail, db_failure, advance, set_instance, expired, update_instance_state, db,
  create_operation, get_instance, World,
}
use open_cuttles.Orchestrator.Requests.{is_startable, Request, submit}
use open_cuttles.Orchestrator.Requests.Guards.{submit-Taken, Taken, submit-refused, is_allowed}
use open_cuttles.Store.Create.Ports.{insert_instance-fresh}
use open_cuttles.Orchestrator.Jobs.Deadline.{run_start-stranded}
use open_cuttles.Orchestrator.Requests.Deletion.{delete-runs_no_command}
use open_cuttles.Store.Rows.{update, find}
use open_cuttles.Store.Create.{new_instance, CreateInstanceRequest, insert_instance}
use open_cuttles.Orchestrator.Reconcile.Settled.{reconcile-IsSettled}
use open_cuttles.Orchestrator.Reconcile.Writes.{IsSettled}
use open_cuttles.Examples.{device, world, operation, database, host}
use open_cuttles.Base.Int.{pos}
use open_cuttles.Go.{Error, ◌>>=◌, err}
use open_cuttles.Orchestrator.Reconcile.{reconcile}
use open_cuttles.Orchestrator.Jobs.{Job, run_job, run_start}
use open_cuttles.Orchestrator.Tools.{launch}

submit-refused_example :
    ((e : Error) × ((submit Request.start host none "dev" (world State.provisioning [])).0 ≡ err e))
    × ((submit Request.start host none "dev" (world State.provisioning [])).1.tables
        ≡ (world State.provisioning []).tables)
unfolding find
submit-refused_example =
    submit-refused Request.start host none "dev" State.provisioning (world State.provisioning [])
      refl (λ e. cc e, λ e. cc e)

abbrev taken : (Operation × Job)
taken = (
  record operation { action = "start"; message = "starting Cuttlefish instance"; created_at = 10 },
  Job.start "dev" "op",
)

submit-Taken_example :
    (is_allowed Request.start State.stopped ≡ true)
    × Taken Request.start "dev"
        (world State.stopped [])
        (submit Request.start host none "dev" (world State.stopped [])).1
        taken.0
        taken.1
unfolding submit find open_cuttles.Store.scan_row open_cuttles.Store.scan_instance db expired
    advance ◌>>=◌ with_timeout db_failure run_or_fail get_instance create_operation
    update_instance_state set_instance update is_startable
submit-Taken_example =
    submit-Taken Request.start host none "dev" State.stopped (world State.stopped []) taken.0
      taken.1 refl refl

reconcile-IsSettled_example :
    IsSettled "dev" (reconcile host none (world State.booting [])).1.tables
reconcile-IsSettled_example = reconcile-IsSettled host (world State.booting []) "dev" (λ t. refl)

-- A host whose database calls take two minutes each.
abbrev slow_host : Machine
slow_host = record host { database = record database { latency = λ tick. 200000 } }

run_start-stranded_example :
    (run_start slow_host "dev" "op" (world State.starting (operation ∷ []))).tables
    ≡ (world State.starting (operation ∷ [])).tables
unfolding find open_cuttles.Store.scan_row open_cuttles.Store.scan_instance db expired advance ◌>>=◌
    with_timeout db_failure run_or_fail get_instance launch run_in_dir
    open_cuttles.Orchestrator.annotated open_cuttles.Store.ImagePath.annotate
    open_cuttles.Store.get_image
run_start-stranded_example =
    run_start-stranded slow_host "dev" "op" (device State.starting)
      (world State.starting (operation ∷ [])) refl (omega arith)

abbrev removing : Instance
removing = record (device State.deleting) { updated_at = 30 }

delete-runs_no_command_example :
    (run_job host (Job.delete "dev" "op" removing) (world State.deleting [])).commands ≡ []
unfolding submit find open_cuttles.Store.scan_row open_cuttles.Store.scan_instance db expired
    advance ◌>>=◌ with_timeout db_failure run_or_fail get_instance create_operation
    update_instance_state set_instance update
delete-runs_no_command_example =
    delete-runs_no_command host none "dev" State.running (world State.running [])
      (world State.deleting [])
      (record operation {
        action = "delete";
        message = "deleting Cuttlefish instance";
        created_at = 10;
      })
      (Job.delete "dev" "op" removing) refl refl refl

abbrev request : CreateInstanceRequest
request = record {
  name = "second";
  android_version = "14";
  cpu_cores = pos 0;
  memory_mb = pos 0;
  display_width = pos 0;
  display_height = pos 0;
  dpi = pos 0;
}

abbrev two : World
two = (insert_instance database none request "img" (world State.stopped [])).1

insert_instance-fresh_example :
    (two.tables.instances ≡ new_instance request "cvd" "img" 6521 10 ∷ device State.stopped ∷ [])
    × All
        (λ (j : Instance). j.adb_port < (new_instance request "cvd" "img" 6521 10).adb_port)
        (device State.stopped ∷ [])
unfolding insert_instance db expired advance db_failure run_or_fail
insert_instance-fresh_example =
    insert_instance-fresh database none request "img" (world State.stopped [])
      (new_instance request "cvd" "img" 6521 10) refl

abbrev handset : Instance
handset = record (device State.offline) { adb_port = 0 }

wait_boot-fuel_example :
    (wait_boot_from 100 host none (device State.booting) 240000 (world State.booting [])
      ≡ wait_boot host none (device State.booting) (world State.booting []))
    × (wait_web_rtc_from 100 host none 45000 (world State.booting [])
        ≡ wait_web_rtc host none (world State.booting []))
wait_boot-fuel_example =
    wait_boot-fuel host none (device State.booting) (world State.booting []) 100 (omega arith)

abbrev phone : Instance
phone = record (device State.offline) { src = Source.physical; adb_target = "10.0.0.7:5555" }

abbrev shelf : World
shelf = record (world State.offline []) {
  tables = record { instances = phone ∷ []; operations = []; images = [] };
}

write_reach-is_current_example :
    (j : Instance) × (find
        (λ (k : Instance). k.id)
        "dev"
        (write_reach database none phone AdbState.device shelf).tables.instances
      ≡ some j)
    × Reads AdbState.device j.state j.last_error
    × ((v : World) → write_reach database none j AdbState.device v ≡ v)
unfolding find
write_reach-is_current_example =
    write_reach-is_current host phone AdbState.device shelf (λ t. refl) refl
