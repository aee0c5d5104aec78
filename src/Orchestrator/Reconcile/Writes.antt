-- ===== src/Orchestrator/Reconcile/Writes.antt =====
-- What a write of a state does to the devices, where no database call fails.
use open_cuttles.Store.{
  get_instance, with_state, write_instance, run_or_fail, World, advance, expired, set_instance,
  Tables, db_failure, update_instance_state, db,
}
use open_cuttles.Orchestrator.Reconcile.{is_interrupted}
use open_cuttles.Domain.{Instance, State}
use open_cuttles.Base.{
  Option-cases, Bool-cases, eq_iff, str_eq, not, Bool, ℕ, Option, String, ◌≡◌, inl, inr,
  if◌then◌else◌, true, false, none, some, refl, sym, ap, arith,
}
use open_cuttles.Store.Keeps.{bind-tables}
use open_cuttles.Go.{Exec}
use open_cuttles.Orchestrator.{Machine, set_state}
use mathlib.Core.Option
use open_cuttles.Store.Rows.{find-update_self, find-update_ne}
use open_cuttles.Store.Laws.{state_in, get_instance-Keeps}

unfoldable pub settled : Option State → Bool
settled none = true
settled (some s) = not (is_interrupted s)

-- The device, if the table has it, is in none of the states that need a goroutine to leave.
unfoldable pub IsSettled : String → Tables → Type 0
unfolding settled
IsSettled id t = settled (state_in id t) ≡ true

-- No database call fails.
abbrev pub IsCalm : Machine → Type 0
IsCalm m = (t : ℕ) → m.db_fault t ≡ none

pub db-calm :
    {A : Type 0} (m : Machine) (body : Exec World A) (w : World)
    → IsCalm m
    → db m.database none body w ≡ body (advance m.database w)
unfolding db db_failure expired
db-calm m body w calm = rw (calm w.tick, run_or_fail) refl

set_state_lands :
    (m : Machine) (id other : String) (s : State) (text : String) (w : World)
    → IsCalm m
    → state_in other (set_state m none id s text w).tables ≡ (
        if str_eq id other
        then Option.map (λ _. s) (state_in other w.tables)
        else state_in other w.tables)
unfolding set_state update_instance_state set_instance advance
set_state_lands m id other s text w calm =
    let write = write_instance id (with_state s text) in
    let after =
      bind-tables (db m.database none write) (λ _. get_instance m.database none id)
        (λ _. get_instance-Keeps m.database none id) w in
    rw (ap (state_in other) after, ap (λ r. state_in other r.1.tables) (db-calm m write w calm))
      (elim (Bool-cases (str_eq id other)) [
        | inl e ↦
            rw (e, sym ((eq_iff id other).0 e))
              (ground (
                arith,
                find-update_self (λ (i : Instance). i.id)
                    (with_state s text (advance m.database w).now) (λ i. refl) id
                    w.tables.instances,
              ))
        | inr e ↦ rw e (
            ap (Option.map (λ i. i.state)) (
              find-update_ne (λ (i : Instance). i.id) (with_state s text (advance m.database w).now)
                (λ i. refl) id other w.tables.instances
                (λ same. cc ((eq_iff id other).1 (sym same), e))))
      ])

pub set_state-IsSettled :
    (m : Machine) (id other : String) (s : State) (text : String) (w : World)
    → IsCalm m
    → is_interrupted s ≡ false
    → IsSettled other w.tables
    → IsSettled other (set_state m none id s text w).tables
unfolding IsSettled
set_state-IsSettled m id other s text w calm h before =
    rw (set_state_lands m id other s text w calm) (elim (Bool-cases (str_eq id other)) [
      | inl e ↦ rw e (ground (arith, Option-cases (state_in other w.tables)))
      | inr e ↦ rw e before
    ])

-- Writing a settled state settles the device, whatever it was in.
pub set_state-settles :
    (m : Machine) (id : String) (s : State) (text : String) (w : World)
    → IsCalm m
    → is_interrupted s ≡ false
    → IsSettled id (set_state m none id s text w).tables
unfolding IsSettled
set_state-settles m id s text w calm h =
    rw (set_state_lands m id id s text w calm, (eq_iff id id).1 refl)
      (ground (arith, Option-cases (state_in id w.tables)))
