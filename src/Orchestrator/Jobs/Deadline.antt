-- ===== src/Orchestrator/Jobs/Deadline.antt =====
-- A start that overruns its deadline: the writes that should record the failure use the expired
-- context, so they fail too.
use open_cuttles.Store.{
  run_or_fail, get_instance, World, expired, set_instance, finish_operation, advance, db_failure,
  db, Database, update_instance_state,
}
use open_cuttles.Orchestrator.Quiet.{launch-Keeps}
use open_cuttles.Orchestrator.Tools.{launch}
use open_cuttles.Domain.{failed, booting, State, OperationStatus, Instance}
use open_cuttles.Go.{error_text, continue, Error, deadline_exceeded, Exec, ◌>>=◌, ok, err}
use open_cuttles.Orchestrator.{set_state, with_timeout, finish_op, Machine}
use open_cuttles.Orchestrator.Jobs.{start_timeout, give_up, fail_job, start_launched, run_start}
use open_cuttles.Base.{String, ℕ, ◌+◌, ◌≡◌, ◌≤◌, ◌∙◌, some, refl, ap, arith}
use open_cuttles.Orchestrator.Jobs.Rules.{handle-rule}
use open_cuttles.Store.Laws.{get_instance-Keeps}

abbrev pub IsLate : ℕ → World → Type 0
IsLate deadline w = deadline ≤ w.now

IsLate-advance :
    (d : Database) (deadline : ℕ) (w : World) → IsLate deadline w → IsLate deadline (advance d w)
unfolding advance
IsLate-advance d deadline w h = omega arith

late_failure :
    (d : Database) (deadline : ℕ) (w : World)
    → IsLate deadline w
    → db_failure d (some deadline) w ≡ some deadline_exceeded
unfolding db_failure expired advance
late_failure d deadline w h = ground arith

db-late :
    {A : Type 0} (d : Database) (deadline : ℕ) (body : Exec World A) (w : World)
    → IsLate deadline w
    → db d (some deadline) body w ≡ (err deadline_exceeded, advance d w)
unfolding db
db-late d deadline body w h = rw (late_failure d deadline w h, run_or_fail) refl

bind-late :
    {A B : Type 0} (d : Database) (deadline : ℕ) (body : Exec World A) (g : A → Exec World B)
    (w : World)
    → IsLate deadline w
    → (db d (some deadline) body >>= g) w ≡ (err deadline_exceeded, advance d w)
unfolding ◌>>=◌
bind-late d deadline body g w h = rw (db-late d deadline body w h, continue) refl

update-late :
    (d : Database) (deadline : ℕ) (id : String) (s : State) (text : String) (w : World)
    → IsLate deadline w
    → update_instance_state d (some deadline) id s text w ≡ (err deadline_exceeded, advance d w)
unfolding update_instance_state set_instance
update-late d deadline id s text w h = bind-late d deadline _ _ w h

finish_op-late :
    (m : Machine) (deadline : ℕ) (op : String) (s : OperationStatus) (text : String) (w : World)
    → IsLate deadline w
    → finish_op m (some deadline) op s text w ≡ advance m.database w
unfolding finish_op finish_operation
finish_op-late m deadline op s text w h = ap (λ r. r.1) (bind-late m.database deadline _ _ w h)

module _ (m : Machine) (deadline : ℕ) (id op : String) where
  give_up-late :
      (e : Error) (w : World)
      → IsLate deadline w
      → (give_up m (some deadline) op e w).tables ≡ w.tables
  unfolding give_up advance
  give_up-late e w h = ap (λ v. v.tables) (finish_op-late m deadline op failed (error_text e) w h)

  fail_job-late :
      (e : Error) (w : World)
      → IsLate deadline w
      → (fail_job m (some deadline) id op e w).tables ≡ w.tables
  unfolding fail_job set_state
  fail_job-late e w h =
      let written = update-late m.database deadline id State.error (error_text e) w h in
      rw (ap (λ r. r.1) written)
        (give_up-late e (advance m.database w) (IsLate-advance m.database deadline w h) ∙ same w)
    where
      same : (v : World) → (advance m.database v).tables ≡ v.tables
      same v = unfold advance in refl

  start_launched-late :
      (w : World) → IsLate deadline w → (start_launched m (some deadline) id op w).tables ≡ w.tables
  unfolding start_launched
  start_launched-late w h =
      let written = update-late m.database deadline id booting "" w h in
      handle-rule (λ v. v.tables ≡ w.tables)
        (update_instance_state m.database (some deadline) id booting "") _ _ w
        (λ e p. rw (ap (λ r. r.1) written) (
          give_up-late e (advance m.database w) (IsLate-advance m.database deadline w h)
          ∙ unfold advance in refl))
        (λ i p. cc (ap (λ r. r.0) written, p))

-- If the launch, whatever it answers, ends after the five minutes of the job's context, the job
-- ends without a change to the tables: the device stays in its transitional state, and the
-- operation stays running.
pub run_start-stranded :
    (m : Machine) (id op : String) (i : Instance) (w : World)
    → let ctx = with_timeout w start_timeout in
      let v = (get_instance m.database ctx id w).1 in
      (get_instance m.database ctx id w).0 ≡ ok i
      → w.now + start_timeout ≤ (launch m ctx i v).1.now
      → (run_start m id op w).tables ≡ w.tables
unfolding run_start with_timeout
run_start-stranded m id op i w found late =
    let ctx = with_timeout w start_timeout in
    let v = (get_instance m.database ctx id w).1 in
    let Q : World → Type 0 = λ u. u.tables ≡ w.tables in
    handle-rule Q (get_instance m.database ctx id) _ _ w (λ e p. cc)
      (λ j p.
        let same : j ≡ i = cc in
        let before =
          (launch-Keeps {f = λ t. t} m ctx j).at v
          ∙ (get_instance-Keeps {f = λ t. t} m.database ctx id).at w in
        let late' : IsLate (w.now + start_timeout) (launch m ctx j v).1 = rw same late in
        handle-rule Q (launch m ctx j) _ _ v
          (λ e _. fail_job-late m (w.now + start_timeout) id op e _ late' ∙ before)
          (λ _ _. start_launched-late m (w.now + start_timeout) id op _ late' ∙ before))
