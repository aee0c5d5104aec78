-- ===== src/Orchestrator/Requests/Deletion.antt =====
-- What deleting a device runs on the host.
use open_cuttles.Go.{error_text, Error, message, continue, Result, Exec, ◌>>=◌, ok, err}
use open_cuttles.Domain.{failed, succeeded, OperationStatus, Instance}
use open_cuttles.Orchestrator.Jobs.Rules.{handle-rule}
use open_cuttles.Orchestrator.Jobs.{give_up, release_group, stop_if_live, run_job, run_delete}
use open_cuttles.Orchestrator.Requests.{
  is_deleting, Request, submit, Job, Operation, World, State, Context, Machine, delete_device,
}
use open_cuttles.Base.{Bool-cases, Option, String, ◌≡◌, ◌∙◌, inl, inr, true, none, some, refl, ap}
use open_cuttles.Orchestrator.Requests.Guards.{taken-by}
use open_cuttles.Store.Rows.{find}
use open_cuttles.Orchestrator.Tools.{clear_stale_group}
use open_cuttles.Store.{
  finish_operation, delete_rows, get_operation, delete_instance, db, Database, advance,
}
use open_cuttles.Store.Laws.{state_in}
use open_cuttles.Orchestrator.{Machine, finish_op, with_timeout, is_possibly_live}
use open_cuttles.Store.Keeps.{db-cases}

-- A call that runs no command.
record IsSilent {A : Type 0} (m : Exec World A) : Type 0 where
  at : (w : World) → (m w).1.commands ≡ w.commands

IsSilent-db :
    {A : Type 0} (d : Database) (ctx : Context) (body : Exec World A)
    → IsSilent body
    → IsSilent (db d ctx body)
unfolding advance
IsSilent-db d ctx body h = record {
  at = λ w. elim (db-cases d ctx body w) [
    | inl e ↦ rw e (h.at (advance d w))
    | inr (x, e) ↦ rw e refl
  ];
}

IsSilent-bind :
    {A B : Type 0} (m : Exec World A) (g : A → Exec World B)
    → IsSilent m
    → ((a : A) → IsSilent (g a))
    → IsSilent (m >>= g)
unfolding ◌>>=◌
IsSilent-bind {A} m g km kg = record { at = λ w. go (m w).0 (m w).1 ∙ km.at w }
  where
    go : (r : Result A) (v : World) → (continue r g v).1.commands ≡ v.commands
    go (ok a) v = (kg a).at v
    go (err e) v = refl

finish_op-silent :
    (m : Machine) (ctx : Context) (op : String) (s : OperationStatus) (text : String) (w : World)
    → (finish_op m ctx op s text w).commands ≡ w.commands
unfolding finish_op finish_operation get_operation
finish_op-silent m ctx op s text w =
    (IsSilent-bind _ _ (IsSilent-db m.database ctx _ (record { at = λ v. refl }))
        (λ _. IsSilent-db m.database ctx _ (record { at = λ v. refl }))).at
      w

give_up-silent :
    (m : Machine) (ctx : Context) (op : String) (e : Error) (w : World)
    → (give_up m ctx op e w).commands ≡ w.commands
unfolding give_up
give_up-silent m ctx op e w = finish_op-silent m ctx op failed (error_text e) w

delete_instance-IsSilent :
    (d : Database) (ctx : Context) (id : String) → IsSilent (delete_instance d ctx id)
unfolding delete_instance delete_rows
delete_instance-IsSilent d ctx id =
    IsSilent-db d ctx _ (record { at = λ v. rows v (find (λ i. i.id) id v.instances) })
  where
    rows : (v : World) (o : Option Instance) → (delete_rows id v o).1.commands ≡ v.commands
    rows v none = refl
    rows v (some i) = refl

release_group-silent :
    (m : Machine) (ctx : Context) (i : Instance) (w : World)
    → m.look_path "launch_cvd" ≡ true
    → (release_group m ctx i w).1.commands ≡ w.commands
unfolding release_group clear_stale_group
release_group-silent m ctx i w legacy =
    rw legacy (elim (Bool-cases m.live) [ inl e ↦ rw e refl | inr e ↦ rw e refl ])

stop_skipped :
    (m : Machine) (ctx : Context) (i : Instance) (w : World)
    → i.state ≡ State.deleting
    → stop_if_live m ctx i w ≡ (ok tt, w)
unfolding stop_if_live is_possibly_live
stop_skipped m ctx i w gone = simp gone refl

run_delete-silent :
    (m : Machine) (id op : String) (i : Instance) (w : World)
    → m.look_path "launch_cvd" ≡ true
    → i.state ≡ State.deleting
    → (run_delete m id op i w).commands ≡ w.commands
unfolding run_delete
run_delete-silent m id op i w legacy gone =
    let ctx = with_timeout w 180000 in
    let skipped = stop_skipped m ctx i w gone in
    let Q : World → Type 0 = λ u. u.commands ≡ w.commands in
    handle-rule Q (stop_if_live m ctx i) _ _ w (λ e p. cc (ap (λ r. r.0) skipped, p))
      (λ _ _.
        let released = release_group-silent m ctx i (stop_if_live m ctx i w).1 legacy in
        let quiet =
          (delete_instance-IsSilent m.database ctx id).at
            (release_group m ctx i (stop_if_live m ctx i w).1).1
          ∙ released
          ∙ ap (λ r. r.1.commands) skipped in
        handle-rule Q (delete_instance m.database ctx id) _ _ _
          (λ e _. give_up-silent m ctx op e _ ∙ quiet)
          (λ u _. finish_op-silent m ctx op succeeded "instance deleted" _ ∙ quiet))

-- The record that the delete goroutine captures is read back after the state was set to `deleting`.
captured_state :
    (m : Machine) (ctx : Context) (id : String) (s : State) (w : World) (o : Operation) (j : Job)
    → state_in id w.tables ≡ some s
    → (delete_device m ctx id w).0 ≡ ok (o, j)
    → (i : Instance) × (i.state ≡ State.deleting) × (j ≡ Job.delete id o.id i)
unfolding delete_device
captured_state m ctx id s w o j h q =
    let (g, n, i, e, p) =
      taken-by m.database ctx id is_deleting (λ _. message "instance is already deleting") "delete"
        "deleting Cuttlefish instance" State.deleting (λ o i. (o, Job.delete id o.id i)) s w (o, j)
        h q in
    (i, p.3, cc (ap (λ (a : Operation × Job). a.1) e, ap (λ (a : Operation × Job). a.0) e))

-- Deleting a device that was in any state, a running one too, runs no command at all on a host
-- with the legacy tool chain (launch_cvd on PATH): `stop` is asked of a record that already reads
-- `deleting`, so its guard never passes, and releasing the group does nothing there.
pub delete-runs_no_command :
    (m : Machine) (ctx : Context) (id : String) (s : State) (w v : World) (o : Operation) (j : Job)
    → m.look_path "launch_cvd" ≡ true
    → state_in id w.tables ≡ some s
    → (submit Request.delete m ctx id w).0 ≡ ok (o, j)
    → (run_job m j v).commands ≡ v.commands
unfolding submit run_job
delete-runs_no_command m ctx id s w v o j legacy h q =
    let (i, gone, e) = captured_state m ctx id s w o j h q in
    rw (e, run_job) (run_delete-silent m id o.id i v legacy gone)
