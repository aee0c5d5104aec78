-- ===== src/DeviceWatch/Written.antt =====
-- What a physical device reads after the watcher looked at it.
use open_cuttles.DeviceWatch.{
  same_reach, AdbState, wanted_state, wanted_message, is_current, write_reach,
}
use open_cuttles.Base.{
  eq_iff, String, Bool-cases, ◌↔◌, ◌≡◌, ◌∙◌, inl, inr, true, none, some, refl, ap, arith,
}
use mathlib.Core.Option
use open_cuttles.Store.Rows.{find-update_self, find}
use open_cuttles.Store.{
  Tables, get_instance, db, write_instance, with_state, advance, set_instance, World,
  update_instance_state,
}
use open_cuttles.Store.Laws.{get_instance-Keeps}
use open_cuttles.Store.Keeps.{bind-tables}
use open_cuttles.Domain.{State, Instance}
use open_cuttles.Orchestrator.{Machine}
use open_cuttles.Orchestrator.Reconcile.Writes.{IsCalm, db-calm}

same_reach_iff :
    (s : State) (a : AdbState) → (same_reach s (wanted_state a) ≡ true) ↔ (s ≡ wanted_state a)
unfolding same_reach wanted_state
same_reach_iff s a = ground arith

is_current_iff :
    (i : Instance) (a : AdbState)
    → (is_current i a ≡ true) ↔ ((i.state ≡ wanted_state a) × (i.last_error ≡ wanted_message a))
unfolding is_current
is_current_iff i a =
    ground (arith, same_reach_iff i.state a, eq_iff i.last_error (wanted_message a))

updated_row :
    (m : Machine) (i : Instance) (s : State) (text : String) (w : World)
    → IsCalm m
    → find (λ (j : Instance). j.id) i.id w.tables.instances ≡ some i
    → find
        (λ (j : Instance). j.id)
        i.id
        (update_instance_state m.database none i.id s text w).1.tables.instances
      ≡ some (with_state s text (advance m.database w).now i)
unfolding update_instance_state set_instance advance
updated_row m i s text w calm h =
    let write = write_instance i.id (with_state s text) in
    let after =
      bind-tables (db m.database none write) (λ _. get_instance m.database none i.id)
        (λ _. get_instance-Keeps m.database none i.id) w in
    ap (λ (t : Tables). find (λ (j : Instance). j.id) i.id t.instances)
      (after ∙ ap (λ r. r.1.tables) (db-calm m write w calm))
    ∙ find-update_self (λ (j : Instance). j.id) (with_state s text (advance m.database w).now)
        (λ j. refl) i.id w.tables.instances
    ∙ ap (Option.map (with_state s text (advance m.database w).now)) h

-- What a device reads for each state of its line: online where adb has the device, else offline with
-- the reason.
abbrev pub Reads : AdbState → State → String → Type 0
Reads AdbState.device s text = (s ≡ State.online) × (text ≡ "")
Reads AdbState.offline s text = (s ≡ State.offline) × (text ≡ "device is offline")
Reads AdbState.unauthorized s text =
    (s ≡ State.offline)
    × (text ≡ "USB debugging is not authorized on the device — accept the prompt on its screen")
Reads AdbState.no_permissions s text =
    (s ≡ State.offline)
    × (text ≡ "the appliance cannot access this device (udev rules or group membership)")
Reads AdbState.unknown s text = (s ≡ State.offline) × (text ≡ "device not visible to adb")

wanted-Reads : (a : AdbState) → Reads a (wanted_state a) (wanted_message a)
unfolding wanted_state wanted_message
wanted-Reads AdbState.device = (refl, refl)
wanted-Reads AdbState.offline = (refl, refl)
wanted-Reads AdbState.unauthorized = (refl, refl)
wanted-Reads AdbState.no_permissions = (refl, refl)
wanted-Reads AdbState.unknown = (refl, refl)

-- Where no database call fails, a device that the watcher looked at reads online and no
-- message where its line of `adb devices` says device, else offline and the reason, and looking at
-- it again with the same line writes nothing.
pub write_reach-is_current :
    (m : Machine) (i : Instance) (a : AdbState) (w : World)
    → IsCalm m
    → find (λ (j : Instance). j.id) i.id w.tables.instances ≡ some i
    → (j : Instance) × (find
          (λ (k : Instance). k.id)
          i.id
          (write_reach m.database none i a w).tables.instances
        ≡ some j)
      × Reads a j.state j.last_error
      × ((v : World) → write_reach m.database none j a v ≡ v)
unfolding write_reach
write_reach-is_current m i a w calm h = elim (Bool-cases (is_current i a)) [
  | inl e ↦
      let (s, t) = (is_current_iff i a).0 e in
      (i, rw e h, rw (s, t) (wanted-Reads a), λ v. rw e refl)
  | inr e ↦
      let j = with_state (wanted_state a) (wanted_message a) (advance m.database w).now i in
      let current = (is_current_iff j a).1 (refl, refl) in
      (j, rw e (updated_row m i _ _ w calm h), wanted-Reads a, λ v. rw current refl)
]
