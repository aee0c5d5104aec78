-- ===== src/Orchestrator/Reconcile.antt =====
-- Service.Reconcile, which runs once when the API starts.
pub mod Writes
pub mod Settled
use open_cuttles.Base.{not, ◌&&◌, [], ◌∷◌, if◌then◌else◌, true, false, List, Bool}
use open_cuttles.Orchestrator.Ready.{wait_ready}
use open_cuttles.Store.{list_instances}
use open_cuttles.Go.{◌>>=◌, ok}
use open_cuttles.Orchestrator.{set_state, World, Exec, Context, Machine}
use open_cuttles.Orchestrator.Tools.{is_adb_reachable}
use open_cuttles.Domain.{Instance, State}
use open_cuttles.Orchestrator.Jobs.{handle}

abbrev pub is_interrupted : State → Bool
is_interrupted State.starting = true
is_interrupted State.booting = true
is_interrupted State.stopping = true
is_interrupted State.deleting = true
is_interrupted _ = false

unfoldable pub fail_launch : Machine → Context → Instance → World → World
fail_launch m ctx i =
    set_state m ctx i.id State.error "startup reconciliation found interrupted launch"

-- A device that was on its way up is probed again, on a live host.
unfoldable pub resume_launch : Machine → Context → Instance → World → World
unfolding fail_launch handle
resume_launch m ctx i =
    if m.live
    then handle (wait_ready m ctx i) (λ _. fail_launch m ctx i)
        (λ _. set_state m ctx i.id State.running "")
    else fail_launch m ctx i

unfoldable pub probe_running : Machine → Context → Instance → World → World
unfolding handle
probe_running m ctx i =
    handle (is_adb_reachable m ctx i) (λ _ v. v)
      (λ reachable.
        if m.live && not reachable
        then set_state m ctx i.id State.error "startup reconciliation could not reach ADB"
        else λ v. v)

unfoldable pub reconcile_state : Machine → Context → Instance → State → World → World
unfolding resume_launch probe_running
reconcile_state m ctx i State.starting = resume_launch m ctx i
reconcile_state m ctx i State.booting = resume_launch m ctx i
reconcile_state m ctx i State.running = probe_running m ctx i
reconcile_state m ctx i State.stopping =
    set_state m ctx i.id State.error "startup reconciliation found interrupted operation"
reconcile_state m ctx i State.deleting =
    set_state m ctx i.id State.error "startup reconciliation found interrupted operation"
reconcile_state m ctx i _ = λ w. w

unfoldable pub reconcile_all : Machine → Context → List Instance → World → World
unfolding reconcile_state
reconcile_all m ctx [] w = w
reconcile_all m ctx (i ∷ rest) w = reconcile_all m ctx rest (reconcile_state m ctx i i.state w)

unfoldable pub reconcile : Machine → Context → Exec World Unit
reconcile m ctx = do
  instances ← list_instances m.database ctx
  λ w. (ok tt, reconcile_all m ctx instances w)
