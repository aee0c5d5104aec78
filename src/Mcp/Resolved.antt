-- ===== src/Mcp/Resolved.antt =====
-- A tool acts on the device that its call names, else on the active one, else on the only one.
use open_cuttles.Store.{get_instance, advance, scan_all, World, Database, Context, list_instances}
use open_cuttles.Base.{
  subst, Bool-cases, str_eq, not, Option, List, String, ◌≡◌, ◌∙◌, inl, inr, [], ◌∷◌, if◌then◌else◌,
  none, some, refl, sym, ap,
}
use open_cuttles.Go.Laws.{Result-cases, ok_injective}
use open_cuttles.Store.Keeps.{db_ok}
use open_cuttles.Go.{Result, ◌>>=◌, ok}
use open_cuttles.DeviceControl.Effects.{get_instance-silent, db-silent}
use open_cuttles.Mcp.{
  answer_with, resolve_device, reachable, only_one, named_device, sole_device, Desk, in_lab, Gear,
}
use open_cuttles.Domain.{Instance}
use open_cuttles.DeviceControl.{in_world}

sole : List Instance → Option String
sole (i ∷ []) = some i.id
sole _ = none

-- The device that a call goes to, by what the call, the service and the table of devices hold.
unfoldable pub device_of : String → Desk → Option String
unfolding sole
device_of explicit s =
    if not (str_eq explicit "")
    then some explicit
    else if not (str_eq s.active "")
    then some s.active
    else sole (reachable (scan_all s.lab.world.tables.instances))

-- Nothing is run or called.
abbrev pub Quiet : Desk → Desk → Type 0
Quiet s t = (t.lab.world.commands ≡ s.lab.world.commands) × (t.lab.calls ≡ s.lab.calls)

list_instances-silent :
    (d : Database) (ctx : Context) (w : World) → (list_instances d ctx w).1.commands ≡ w.commands
unfolding list_instances
list_instances-silent d ctx w = db-silent d ctx _ (λ v. refl) w

get_instance-listed :
    (d : Database) (ctx : Context) (w : World) (rows : List Instance)
    → (list_instances d ctx w).0 ≡ ok rows
    → rows ≡ scan_all w.tables.instances
unfolding list_instances advance
get_instance-listed d ctx w rows h =
    let ran = db_ok d ctx (λ v. (ok (scan_all v.instances), v)) w rows h in
    sym (ok_injective (sym (ap (λ r. r.0) ran) ∙ h))

only_one-sole : (rows : List Instance) (id : String) → only_one rows ≡ ok id → sole rows ≡ some id
unfolding only_one sole
only_one-sole [] id h = cc h
only_one-sole (i ∷ []) id h = ap some (ok_injective h)
only_one-sole (i ∷ j ∷ rest) id h = cc h

-- Finding the device runs and calls nothing, and finds the one of the specification.
pub record Found (explicit : String) (s : Desk) (p : Result String × Desk) : Type 0 where
  pub quiet : Quiet s p.1
  pub lab_only : p.1 ≡ record s { lab = p.1.lab }
  pub is_device : (id : String) → p.0 ≡ ok id → device_of explicit s ≡ some id

module _ (g : Gear) (ctx : Context) where
  pub listed-Quiet :
      (s : Desk) → Quiet s (in_lab (in_world (list_instances g.bench.database ctx)) s).1
  unfolding in_lab in_world
  listed-Quiet s = (list_instances-silent g.bench.database ctx s.lab.world, refl)

  named_lem :
      (id : String) (s : Desk)
      → Quiet s (named_device g ctx id s).1
        × ((named_device g ctx id s).1 ≡ record s { lab = (named_device g ctx id s).1.lab })
        × ((x : String) → (named_device g ctx id s).0 ≡ ok x → id ≡ x)
  unfolding named_device in_lab in_world
  named_lem id s =
      let silent = get_instance-silent g.bench.database ctx id s.lab.world in
      elim (Result-cases (get_instance g.bench.database ctx id s.lab.world).0) [
        | inl (i, h) ↦ rw h ((silent, refl), refl, λ x e. ok_injective e)
        | inr (e, h) ↦ rw h ((silent, refl), refl, λ x f. cc f)
      ]

  sole_lem :
      (s : Desk)
      → Quiet s (sole_device g ctx s).1
        × ((sole_device g ctx s).1 ≡ record s { lab = (sole_device g ctx s).1.lab })
        × ((x : String)
            → (sole_device g ctx s).0 ≡ ok x
            → sole (reachable (scan_all s.lab.world.tables.instances)) ≡ some x)
  unfolding sole_device in_lab in_world answer_with ◌>>=◌
  sole_lem s =
      let silent = list_instances-silent g.bench.database ctx s.lab.world in
      elim (Result-cases (list_instances g.bench.database ctx s.lab.world).0) [
        | inl (rows, h) ↦ rw h (
          (silent, refl),
          refl,
          λ x e.
              subst (λ r. sole (reachable r) ≡ some x)
                (get_instance-listed g.bench.database ctx s.lab.world rows h)
                (only_one-sole (reachable rows) x e),
        )
        | inr (e, h) ↦ rw h ((silent, refl), refl, λ x f. cc f)
      ]

  pub resolve_device-Found :
      (explicit : String) (s : Desk) → Found explicit s (resolve_device g ctx explicit s)
  unfolding resolve_device device_of
  resolve_device-Found explicit s = elim (Bool-cases (not (str_eq explicit ""))) [
    | inl h ↦ rw h (record {
      quiet = (named_lem explicit s).0;
      lab_only = (named_lem explicit s).1;
      is_device = λ id e. rw h (ap some ((named_lem explicit s).2 id e));
    })
    | inr h ↦ rw h (elim (Bool-cases (not (str_eq s.active ""))) [
      | inl k ↦ rw k (record {
        quiet = (refl, refl);
        lab_only = refl;
        is_device = λ id e. rw (h, k) (ap some (ok_injective e));
      })
      | inr k ↦ rw k (record {
        quiet = (sole_lem s).0;
        lab_only = (sole_lem s).1;
        is_device = λ id e. rw (h, k) ((sole_lem s).2 id e);
      })
    ])
  ]
