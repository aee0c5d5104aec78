-- ===== src/Orchestrator/Jobs.antt =====
-- The goroutines runStart, runDeploy, runStop and runDelete. Each makes its own context, with a
-- deadline counted from its start, and uses it for every call, the last writes included.
pub mod Rules
pub mod Evidence
pub mod Success
pub mod Deadline
use open_cuttles.Base.{ℕ, String, if◌then◌else◌}
use open_cuttles.Go.{Error, wrapped, error_text, Result, ok, err, Exec, pure}
use open_cuttles.Domain.{State, starting, booting, running, stopped, Instance, succeeded, failed}
use open_cuttles.Store.{
  World, Context, get_instance, update_instance_state, delete_instance, get_image,
}
use open_cuttles.Orchestrator.{Machine, with_timeout, set_state, finish_op, is_possibly_live}
use open_cuttles.Orchestrator.Tools.{launch, stop, clear_stale_group, ensure_image}
use open_cuttles.Orchestrator.Ready.{wait_ready, finalize_console}

unfoldable pub settle :
    {A : Type 0} → Result A → (Error → World → World) → (A → World → World) → World → World
settle (ok a) bad good w = good a w
settle (err e) bad good w = bad e w

-- `x, err := m(); if err != nil { bad; return }; good`
unfoldable pub handle :
    {A : Type 0} → Exec World A → (Error → World → World) → (A → World → World) → World → World
unfolding settle
handle m bad good w = let (r, w') = m w in settle r bad good w'

-- The operation fails, and the device keeps its state.
unfoldable pub give_up : Machine → Context → String → Error → World → World
give_up m ctx op e w = finish_op m ctx op failed (error_text e) w

-- The device goes to `error` and the operation fails.
unfoldable pub fail_job : Machine → Context → String → String → Error → World → World
unfolding give_up
fail_job m ctx id op e w = give_up m ctx op e (set_state m ctx id State.error (error_text e) w)

abbrev pub start_timeout : ℕ
start_timeout = 300000

unfoldable pub finish_running : Machine → Context → String → Instance → World → World
finish_running m ctx op i w =
    finish_op m ctx op succeeded "instance is running" (finalize_console m ctx i w).1

-- The part of runStart behind the launch
unfoldable pub start_launched : Machine → Context → String → String → World → World
unfolding handle give_up fail_job finish_running
start_launched m ctx id op w =
    handle (update_instance_state m.database ctx id booting "") (give_up m ctx op)
      (λ i. handle (wait_ready m ctx i) (fail_job m ctx id op) (λ _.
        handle (update_instance_state m.database ctx id running "") (give_up m ctx op)
          (λ i'. finish_running m ctx op i')))
      w

-- Service.runStart
unfoldable pub run_start : Machine → String → String → World → World
unfolding start_launched
run_start m id op w =
    let ctx = with_timeout w start_timeout in
    handle (get_instance m.database ctx id) (give_up m ctx op)
      (λ i. handle (launch m ctx i) (fail_job m ctx id op) (λ _. start_launched m ctx id op)) w

unfoldable pub image_lookup : Error → Error
image_lookup e = wrapped "image lookup: " e ""

-- Service.runDeploy, with 60 minutes: every failure behind the first read goes through `fail`.
unfoldable pub run_deploy : Machine → String → String → World → World
unfolding handle give_up fail_job finish_running image_lookup
run_deploy m id op w =
    let ctx = with_timeout w 3600000 in
    let fail = fail_job m ctx id op in
    handle (get_instance m.database ctx id) (give_up m ctx op)
      (λ i.
        handle (get_image m.database ctx i.image_id) (λ e. fail (image_lookup e))
          (λ image. handle (ensure_image m ctx image) fail (λ _.
            handle (update_instance_state m.database ctx id starting "") fail (λ _.
              handle (launch m ctx i) fail (λ _.
                handle (update_instance_state m.database ctx id booting "") fail (λ _.
                  handle (wait_ready m ctx i) fail (λ _.
                    handle (update_instance_state m.database ctx id running "") fail
                      (λ _. finish_running m ctx op i))))))))
      w

-- Service.runStop, with 2 minutes
unfoldable pub run_stop : Machine → String → String → Instance → World → World
unfolding handle give_up fail_job
run_stop m id op i w =
    let ctx = with_timeout w 120000 in
    handle (stop m ctx i) (fail_job m ctx id op)
      (λ _.
        handle (update_instance_state m.database ctx id stopped "") (give_up m ctx op)
          (λ _. finish_op m ctx op succeeded "instance is stopped"))
      w

unfoldable pub stop_if_live : Machine → Context → Instance → Exec World Unit
stop_if_live m ctx i = if is_possibly_live i.state then stop m ctx i else pure tt

unfoldable pub release_group : Machine → Context → Instance → Exec World Unit
release_group m ctx i = if m.live then clear_stale_group m ctx i else pure tt

-- Service.runDelete, with 3 minutes; clear_stale_group never fails.
unfoldable pub run_delete : Machine → String → String → Instance → World → World
unfolding handle give_up fail_job stop_if_live release_group
run_delete m id op i w =
    let ctx = with_timeout w 180000 in
    handle (stop_if_live m ctx i) (fail_job m ctx id op)
      (λ _ v.
        handle (delete_instance m.database ctx id) (give_up m ctx op)
          (λ _. finish_op m ctx op succeeded "instance deleted") (release_group m ctx i v).1)
      w

-- A goroutine with what it captured.
pub data Job : Type 0 where
  start deploy : (id op : String) → Job
  stop_device delete : (id op : String) → Instance → Job

unfoldable pub run_job : Machine → Job → World → World
unfolding run_start run_deploy run_stop run_delete
run_job m (start id op) w = run_start m id op w
run_job m (deploy id op) w = run_deploy m id op w
run_job m (stop_device id op i) w = run_stop m id op i w
run_job m (delete id op i) w = run_delete m id op i w

-- The operation that a job finishes.
abbrev pub operation_of : Job → String
operation_of (start id op) = op
operation_of (deploy id op) = op
operation_of (stop_device id op i) = op
operation_of (delete id op i) = op
