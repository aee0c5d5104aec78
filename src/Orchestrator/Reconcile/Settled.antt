-- ===== src/Orchestrator/Reconcile/Settled.antt =====
-- After a restart no device is left between two states.
use open_cuttles.Store.{list_instances, scan_instance, scan_all, World, advance, Tables}
use open_cuttles.Orchestrator.Reconcile.{
  reconcile, fail_launch, probe_running, reconcile_state, reconcile_all, resume_launch,
  is_interrupted,
}
use open_cuttles.Domain.{deleting, running, stopping, booting, starting, Instance, State}
use open_cuttles.Orchestrator.Tools.{is_adb_reachable}
use open_cuttles.Orchestrator.Ready.{wait_ready}
use open_cuttles.Orchestrator.Quiet.{is_adb_reachable-Keeps, wait_ready-Keeps}
use open_cuttles.Base.{
  List, subst, Option-cases, Bool-cases, eq_iff, str_eq, not, Bool, Option, String, ◌≡◌, ◌&&◌, ◌∙◌,
  inl, inr, [], ◌∷◌, if◌then◌else◌, true, false, none, some, refl, sym, ap, arith,
}
use open_cuttles.Go.{◌>>=◌, ok}
use open_cuttles.Orchestrator.{Machine, set_state}
use mathlib.Core.Option
use open_cuttles.Store.Rows.{find}
use open_cuttles.Store.Laws.{state_in}
use open_cuttles.Orchestrator.Jobs.Rules.{handle-rule}
use open_cuttles.Orchestrator.Reconcile.Writes.{
  settled, IsSettled, IsCalm, db-calm, set_state-IsSettled, set_state-settles,
}

if-rule : {A : Type 0} (Q : A → Type 0) (b : Bool) (x y : A) → Q x → Q y → Q (if b then x else y)
if-rule Q true x y h k = h
if-rule Q false x y h k = k

-- What one row's turn does to a device `other`: both ends of a resumed launch, and every other
-- write, put a settled state.
module _ (m : Machine) (i : Instance) (other : String) where
  abbrev IsWriter : (World → World) → Type 1
  IsWriter f =
      (Q : World → Type 0) (w : World)
      → ((s : State) (text : String) (v : World)
          → is_interrupted s ≡ false
          → v.tables ≡ w.tables
          → Q (set_state m none i.id s text v))
      → Q (f w)

  fail_launch-IsWriter : IsWriter (fail_launch m none i)
  unfolding fail_launch
  fail_launch-IsWriter Q w write = write State.error _ w refl refl

  resume_launch-IsWriter : IsWriter (resume_launch m none i)
  unfolding resume_launch
  resume_launch-IsWriter Q w write =
      let quiet = (wait_ready-Keeps {f = λ t. t} m none i).at w in
      if-rule (λ (f : World → World). Q (f w)) m.live _ _
        (handle-rule Q (wait_ready m none i) _ _ w
          (λ e _. unfold fail_launch in write State.error _ _ refl quiet)
          (λ _ _. write State.running _ _ refl quiet))
        (fail_launch-IsWriter Q w write)

  probe_running-IsSettled :
      (w : World)
      → IsCalm m
      → IsSettled other w.tables
      → IsSettled other (probe_running m none i w).tables
  unfolding probe_running
  probe_running-IsSettled w calm before =
      let Q : World → Type 0 = λ v. IsSettled other v.tables in
      let quiet = (is_adb_reachable-Keeps {f = λ t. t} m none i).at w in
      let after : Q (is_adb_reachable m none i w).1 = subst (IsSettled other) (sym quiet) before in
      handle-rule Q (is_adb_reachable m none i) _ _ w (λ e _. after)
        (λ reachable _.
          if-rule (λ (f : World → World). Q (f (is_adb_reachable m none i w).1))
            (m.live && not reachable) _ _
            (set_state-IsSettled m i.id other State.error _ _ calm refl after) after)

  writer-IsSettled :
      (f : World → World)
      → IsWriter f
      → (w : World) → IsCalm m
      → IsSettled other w.tables
      → IsSettled other (f w).tables
  writer-IsSettled f writer w calm before =
      writer (λ v. IsSettled other v.tables) w
        λ s text v h same.
          set_state-IsSettled m i.id other s text v calm h
            (subst (IsSettled other) (sym same) before)

  reconcile_state-IsSettled :
      (s : State) (w : World)
      → IsCalm m
      → IsSettled other w.tables
      → IsSettled other (reconcile_state m none i s w).tables
  unfolding reconcile_state
  reconcile_state-IsSettled starting w calm h = writer-IsSettled _ resume_launch-IsWriter w calm h
  reconcile_state-IsSettled booting w calm h = writer-IsSettled _ resume_launch-IsWriter w calm h
  reconcile_state-IsSettled running w calm h = probe_running-IsSettled w calm h
  reconcile_state-IsSettled stopping w calm h =
      set_state-IsSettled m i.id other State.error _ w calm refl h
  reconcile_state-IsSettled deleting w calm h =
      set_state-IsSettled m i.id other State.error _ w calm refl h
  reconcile_state-IsSettled _ w calm h = h

reconcile_state-settles :
    (m : Machine) (i : Instance) (s : State) (w : World)
    → IsCalm m
    → is_interrupted s ≡ true
    → IsSettled i.id (reconcile_state m none i s w).tables
unfolding reconcile_state
reconcile_state-settles m i starting w calm h =
    resume_launch-IsWriter m i i.id (λ v. IsSettled i.id v.tables) w
      λ s text v k _. set_state-settles m i.id s text v calm k
reconcile_state-settles m i booting w calm h =
    resume_launch-IsWriter m i i.id (λ v. IsSettled i.id v.tables) w
      λ s text v k _. set_state-settles m i.id s text v calm k
reconcile_state-settles m i stopping w calm h = set_state-settles m i.id State.error _ w calm refl
reconcile_state-settles m i deleting w calm h = set_state-settles m i.id State.error _ w calm refl
reconcile_state-settles m i _ w calm h = cc

reconcile_all-IsSettled :
    (m : Machine) (id : String) (todo : List Instance) (w : World)
    → IsCalm m
    → IsSettled id w.tables
    → IsSettled id (reconcile_all m none todo w).tables
unfolding reconcile_all
reconcile_all-IsSettled m id [] w calm h = h
reconcile_all-IsSettled m id (i ∷ rest) w calm h =
    reconcile_all-IsSettled m id rest _ calm (reconcile_state-IsSettled m i id i.state w calm h)

reconcile_all-settles :
    (m : Machine) (id : String) (todo : List Instance) (w : World) (j : Instance)
    → IsCalm m
    → find (λ i. i.id) id todo ≡ some j
    → is_interrupted j.state ≡ true
    → IsSettled id (reconcile_all m none todo w).tables
unfolding reconcile_all find
reconcile_all-settles m id [] w j calm f h = cc
reconcile_all-settles m id (i ∷ rest) w j calm f h = elim (Bool-cases (str_eq i.id id)) [
  | inl e ↦
      let same : i ≡ j = ground arith in
      let here : IsSettled i.id (reconcile_state m none i i.state w).tables =
        reconcile_state-settles m i i.state w calm (ap (λ k. is_interrupted k.state) same ∙ h) in
      reconcile_all-IsSettled m id rest _ calm (
        subst (λ k. IsSettled k (reconcile_state m none i i.state w).tables) ((eq_iff i.id id).0 e)
          here)
  | inr e ↦ reconcile_all-settles m id rest _ j calm (ground arith) h
]

find-scan_all :
    (id : String) (rows : List Instance)
    → find (λ i. i.id) id (scan_all rows) ≡ Option.map scan_instance (find (λ i. i.id) id rows)
unfolding find scan_all scan_instance
find-scan_all id [] = refl
find-scan_all id (i ∷ rest) = rw (find-scan_all id rest) (ground arith)

scan_instance-state : (i : Instance) → (scan_instance i).state ≡ i.state
unfolding scan_instance
scan_instance-state i = ground (arith)

mapped_state :
    (o : Option Instance)
    → Option.map (λ (i : Instance). i.state) o
      ≡ Option.map (λ (i : Instance). i.state) (Option.map scan_instance o)
mapped_state none = refl
mapped_state (some i) = ap some (sym (scan_instance-state i))

-- The listing shows each device in the state its row has.
listed_state :
    (id : String) (t : Tables)
    → state_in id t
      ≡ Option.map (λ (i : Instance). i.state) (find (λ i. i.id) id (scan_all t.instances))
listed_state id t =
    rw (find-scan_all id t.instances) (mapped_state (find (λ i. i.id) id t.instances))

list_instances-calm :
    (m : Machine) (w : World)
    → IsCalm m
    → list_instances m.database none w ≡ (ok (scan_all w.tables.instances), advance m.database w)
unfolding list_instances advance
list_instances-calm m w calm = db-calm m _ w calm

all-IsSettled :
    (m : Machine) (w v : World) (id : String)
    → IsCalm m
    → v.tables ≡ w.tables
    → IsSettled id (reconcile_all m none (scan_all w.tables.instances) v).tables
unfolding IsSettled settled
all-IsSettled m w v id calm same =
    let now = ap (state_in id) same ∙ listed_state id w.tables in
    elim (Option-cases (find (λ (i : Instance). i.id) id (scan_all w.tables.instances))) [
      | inl f ↦
          reconcile_all-IsSettled m id _ v calm
            (ap (λ o. settled o) (now ∙ ap (Option.map (λ (i : Instance). i.state)) f))
      | inr (j, f) ↦ elim (Bool-cases (is_interrupted j.state)) [
        | inl e ↦ reconcile_all-settles m id _ v j calm f e
        | inr e ↦
            reconcile_all-IsSettled m id _ v calm
              (ap (λ o. settled o) (now ∙ ap (Option.map (λ (i : Instance). i.state)) f) ∙ ap not e)
      ]
    ]

-- Where no database call fails, after startup reconciliation every device is in a state that is not
-- starting, booting, stopping or deleting, whatever the host's tools answered.
pub reconcile-IsSettled :
    (m : Machine) (w : World) (id : String) → IsCalm m → IsSettled id (reconcile m none w).1.tables
unfolding reconcile ◌>>=◌ advance
reconcile-IsSettled m w id calm =
    rw (list_instances-calm m w calm) (all-IsSettled m w (advance m.database w) id calm refl)
