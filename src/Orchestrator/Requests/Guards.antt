-- ===== src/Orchestrator/Requests/Guards.antt =====
-- Which requests are taken, and what a request that is taken or refused leaves behind.
use open_cuttles.Base.{
  ◌≢◌, subst, Bool-cases, String, not, Bool, ◌≡◌, ◌∙◌, inl, inr, ◌∷◌, if◌then◌else◌, true, false,
  some, refl, ap, arith,
}
use open_cuttles.Go.{raise, message, Result, pure, Exec, Error, ◌>>=◌, ok, err}
use open_cuttles.Store.Laws.{
  update_instance_state_row, create_operation_ok, update_instance_state-Keeps,
  update_instance_state_ok, get_instance_state, get_instance_tables, state_in,
}
use open_cuttles.Orchestrator.Requests.{
  refusal, update_instance_state, create_operation, stop, Job, deploy, start, get_instance, World,
  delete, Context, Machine, submit, is_deleting, is_possibly_live, is_startable, Request,
}
use open_cuttles.Domain.{Operation, Instance, State, OperationStatus}
use open_cuttles.Orchestrator.Jobs.{operation_of}
use open_cuttles.Store.{Database}
use open_cuttles.Go.Laws.{bind-rule}

unfoldable pub is_allowed : Request → State → Bool
unfolding is_startable is_possibly_live
is_allowed start s = is_startable s
is_allowed deploy s = is_startable s
is_allowed stop s = is_possibly_live s
is_allowed delete s = not (is_deleting s)

-- The state that a request leaves the device in, until its job moves it on.
abbrev pub entered : Request → State
entered start = State.starting
entered deploy = State.provisioning
entered stop = State.stopping
entered delete = State.deleting

module _ (d : Database) (ctx : Context) (id : String) where
  -- A guard that answers an error without a call leaves the tables alone.
  refused-by :
      {A : Type 0} (g : Instance → Exec World A) (s : State) (w : World)
      → state_in id w.tables ≡ some s
      → ((i : Instance) → i.state ≡ s → (e : Error) × ((v : World) → g i v ≡ (err e, v)))
      → ((e : Error) × (((get_instance d ctx id >>= g) w).0 ≡ err e))
        × (((get_instance d ctx id >>= g) w).1.tables ≡ w.tables)
  refused-by g s w h refuse =
      bind-rule (λ r v. ((e : Error) × (r ≡ err e)) × (v.tables ≡ w.tables)) (get_instance d ctx id)
        g w (λ e _. ((e, refl), same))
        (λ i p.
          let (e, q) = refuse i (ground (arith, h, get_instance_state d ctx id w i p)) in
          rw (q (get_instance d ctx id w).1) ((e, refl), same))
    where
      same : (get_instance d ctx id w).1.tables ≡ w.tables
      same = get_instance_tables d ctx id w

-- The states in which a request is refused: a start and a deploy of a device that is neither stopped
-- nor in error, a stop of one that is not starting, booting, running, stopping or in error, and a
-- delete of one that is being deleted.
abbrev pub IsRefused : Request → State → Type 0
IsRefused start s = (s ≢ State.stopped) × (s ≢ State.error)
IsRefused deploy s = (s ≢ State.stopped) × (s ≢ State.error)
IsRefused stop s =
    (s ≢ State.starting)
    × (s ≢ State.booting)
    × (s ≢ State.running)
    × (s ≢ State.stopping)
    × (s ≢ State.error)
IsRefused delete s = s ≡ State.deleting

refused-is_allowed : (r : Request) (s : State) → IsRefused r s → is_allowed r s ≡ false
unfolding is_allowed is_startable is_possibly_live
refused-is_allowed start s h = ground arith
refused-is_allowed deploy s h = ground arith
refused-is_allowed stop s h = ground arith
refused-is_allowed delete s h = ground arith

refused-unchanged :
    (r : Request) (m : Machine) (ctx : Context) (id : String) (s : State) (w : World)
    → state_in id w.tables ≡ some s
    → is_allowed r s ≡ false
    → ((e : Error) × ((submit r m ctx id w).0 ≡ err e))
      × ((submit r m ctx id w).1.tables ≡ w.tables)
unfolding submit is_allowed
refused-unchanged start m ctx id s w h a =
    refused-by m.database ctx id _ s w h (λ i e. (refusal "start" i.state, λ v. rw (e, a) refl))
refused-unchanged deploy m ctx id s w h a =
    refused-by m.database ctx id _ s w h (λ i e. (refusal "deploy" i.state, λ v. rw (e, a) refl))
refused-unchanged stop m ctx id s w h a =
    refused-by m.database ctx id _ s w h (λ i e. (refusal "stop" i.state, λ v. rw (e, a) refl))
refused-unchanged delete m ctx id s w h a =
    let gone : is_deleting s ≡ true = ground arith in
    refused-by m.database ctx id _ s w h
      (λ i e. (message "instance is already deleting", λ v. rw (e, gone) refl))

-- A start or a deploy of a device that is neither stopped nor in error, a stop of one that is not
-- starting, booting, running, stopping or in error, and a delete of one that is being deleted is
-- answered by an error (that of a database call or of the
-- guard), and changes no table.
pub submit-refused :
    (r : Request) (m : Machine) (ctx : Context) (id : String) (s : State) (w : World)
    → state_in id w.tables ≡ some s
    → IsRefused r s
    → ((e : Error) × ((submit r m ctx id w).0 ≡ err e))
      × ((submit r m ctx id w).1.tables ≡ w.tables)
submit-refused r m ctx id s w h refused =
    refused-unchanged r m ctx id s w h (refused-is_allowed r s refused)

-- What a taken request leaves: its operation, new and running, and the device in transition.
abbrev pub Taken : Request → String → World → World → Operation → Job → Type 0
Taken r id w v o j =
    (state_in id v.tables ≡ some (entered r))
    × (v.tables.operations ≡ o ∷ w.tables.operations)
    × (o.status ≡ OperationStatus.running)
    × (operation_of j ≡ o.id)

abbrev pub Opened : String → State → World → World → Operation → Instance → Type 0
Opened id s w v n i =
    (state_in id v.tables ≡ some s)
    × (v.tables.operations ≡ n ∷ w.tables.operations)
    × (n.status ≡ OperationStatus.running)
    × (i.state ≡ s)

module _ (d : Database) (ctx : Context) (id : String) where
  -- The common end of the four requests.
  abbrev pub open_operation :
      String
      → String
      → State
      → (Operation → Instance → Operation × Job)
      → Exec World (Operation × Job)
  open_operation action text s k = create_operation d ctx id action text >>= λ o.
      update_instance_state d ctx id s "" >>= λ i. pure (k o i)

  open_operation_lem :
      (action text : String) (s : State) (k : Operation → Instance → Operation × Job) (w : World)
      (a : Operation × Job)
      → (open_operation action text s k w).0 ≡ ok a
      → (n : Operation) × (i : Instance) × (k n i ≡ a)
        × Opened id s w (open_operation action text s k w).1 n i
  open_operation_lem action text s k w a =
      let Q : Result (Operation × Job) → World → Type 0 =
        λ r v. r ≡ ok a → (n : Operation) × (i : Instance) × (k n i ≡ a) × Opened id s w v n i in
      bind-rule Q (create_operation d ctx id action text)
        (λ o. update_instance_state d ctx id s "" >>= λ i. pure (k o i)) w (λ e p q. cc)
        (λ n p.
          let v = (create_operation d ctx id action text w).1 in
          bind-rule Q (update_instance_state d ctx id s "") (λ i. pure (k n i)) v (λ e q r. cc)
            (λ i q r. (
              n,
              i,
              cc,
              (
                update_instance_state_ok d ctx id s "" v i q,
                (update_instance_state-Keeps d ctx id s "").at v
                    ∙ (create_operation_ok d ctx id action text w n p).0,
                ap (λ o. o.status) (create_operation_ok d ctx id action text w n p).1,
                update_instance_state_row d ctx id s "" v i q,
              ),
            )))

-- A request in the shape that the four share: a guard on the state that was read, then the end.
module _ (d : Database) (ctx : Context) (id : String) where
  pub taken-by :
      (b : State → Bool) (refuse : State → Error) (action text : String) (s' : State)
      (k : Operation → Instance → Operation × Job) (s : State) (w : World) (a : Operation × Job)
      → state_in id w.tables ≡ some s
      → let g : Instance → Exec World (Operation × Job) = λ i.
        if b i.state then raise (refuse i.state) else open_operation d ctx id action text s' k in
        ((get_instance d ctx id >>= g) w).0 ≡ ok a
        → (b s ≡ false)
          × (n : Operation) × (i : Instance) × (k n i ≡ a)
          × Opened id s' w ((get_instance d ctx id >>= g) w).1 n i
  taken-by b refuse action text s' k s w a h =
      let g : Instance → Exec World (Operation × Job) = λ i.
        if b i.state then raise (refuse i.state) else open_operation d ctx id action text s' k in
      bind-rule
        (λ r v.
          r ≡ ok a
          → (b s ≡ false) × (n : Operation) × (i : Instance) × (k n i ≡ a) × Opened id s' w v n i)
        (get_instance d ctx id) g w (λ e p q. cc)
        (λ i p.
          let v = (get_instance d ctx id w).1 in
          let same : i.state ≡ s = ground (arith, h, get_instance_state d ctx id w i p) in
          elim (Bool-cases (b s)) [
            | inl bad ↦ rw (same, bad) (λ q. cc)
            | inr good ↦
                rw (same, good)
                  (λ q.
                    let (n, j, e, o) = open_operation_lem d ctx id action text s' k v a q in
                    (
                      refl,
                      n,
                      j,
                      e,
                      (
                        o.0,
                        o.1 ∙ ap (λ t. n ∷ t.operations) (get_instance_tables d ctx id w),
                        o.2,
                        o.3,
                      ),
                    ))
          ])

Taken-Opened :
    (r : Request) (id : String) (w v : World) (n o : Operation) (i : Instance) (j : Job) (j' : Job)
    → ◌≡◌ {A = Operation × Job} (n, j') (o, j)
    → operation_of j' ≡ n.id
    → Opened id (entered r) w v n i
    → Taken r id w v o j
Taken-Opened r id w v n o i j j' e k p =
    subst (λ (a : Operation × Job). Taken r id w v a.0 a.1) e (p.0, p.1, p.2, k)

-- A request that is taken found the device in a state that allows it, entered one operation, new
-- and running, which is the one that its goroutine will finish, and moved the device to the
-- transitional state of the request.
pub submit-Taken :
    (r : Request) (m : Machine) (ctx : Context) (id : String) (s : State) (w : World)
    (o : Operation) (j : Job)
    → state_in id w.tables ≡ some s
    → (submit r m ctx id w).0 ≡ ok (o, j)
    → (is_allowed r s ≡ true) × Taken r id w (submit r m ctx id w).1 o j
unfolding submit is_allowed
submit-Taken start m ctx id s w o j h q =
    let (g, n, i, e, p) =
      taken-by m.database ctx id (λ s. not (is_startable s)) (refusal "start") "start"
        "starting Cuttlefish instance" State.starting (λ o i. (o, Job.start id o.id)) s w (o, j) h
        q in
    (ground arith, Taken-Opened start id w (submit start m ctx id w).1 n o i j _ e refl p)
submit-Taken deploy m ctx id s w o j h q =
    let (g, n, i, e, p) =
      taken-by m.database ctx id (λ s. not (is_startable s)) (refusal "deploy") "deploy"
        "deploying Android instance" State.provisioning (λ o i. (o, Job.deploy id o.id)) s w (o, j)
        h q in
    (ground arith, Taken-Opened deploy id w (submit deploy m ctx id w).1 n o i j _ e refl p)
submit-Taken stop m ctx id s w o j h q =
    let (g, n, i, e, p) =
      taken-by m.database ctx id (λ s. not (is_possibly_live s)) (refusal "stop") "stop"
        "stopping Cuttlefish instance" State.stopping (λ o i. (o, Job.stop_device id o.id i)) s w
        (o, j) h q in
    (ground arith, Taken-Opened stop id w (submit stop m ctx id w).1 n o i j _ e refl p)
submit-Taken delete m ctx id s w o j h q =
    let (g, n, i, e, p) =
      taken-by m.database ctx id is_deleting (λ _. message "instance is already deleting") "delete"
        "deleting Cuttlefish instance" State.deleting (λ o i. (o, Job.delete id o.id i)) s w (o, j)
        h q in
    (ground arith, Taken-Opened delete id w (submit delete m ctx id w).1 n o i j _ e refl p)
