-- ===== src/Store/Laws.antt =====
-- What each call of the store leaves in the tables, whether it fails or not.
use open_cuttles.Store.{
  delete_rows, delete_instance, World, Tables, Database, Context, advance, db, with_state,
  with_console, with_status, set_instance, get_instance, scan_instance, scan_row,
  update_instance_state, update_instance_console, finish_operation, get_operation, get_image,
  update_image_status, create_operation, insert_operation, new_operation, write_instance,
  write_operation,
}
use mathlib.Core.Option
use open_cuttles.Base.{
  ◌∷◌, sym, ◌∙◌, String, ◌≡◌, refl, ap, ◌∙◌, ◌⊎◌, inl, inr, Option, none, some, arith, Option-cases,
  List, ℕ,
}
use open_cuttles.Go.{ok}
use open_cuttles.Go.Laws.{bind-rule}
use open_cuttles.Domain.{State, ImageStatus, Instance, Operation, OperationStatus}
use open_cuttles.Store.Rows.{find, update, find-update_self, column-update, find-remove_self}
use open_cuttles.Store.Keeps.{Keeps, Keeps-db, Keeps-bind, db-cases, db_ok, bind-tables}

-- The state and the last error of the row of an instance, and the status of an operation.
abbrev pub state_in : String → Tables → Option State
state_in id t = Option.map (λ i. i.state) (find (λ (i : Instance). i.id) id t.instances)

abbrev pub last_error_in : String → Tables → Option String
last_error_in id t = Option.map (λ i. i.last_error) (find (λ (i : Instance). i.id) id t.instances)

abbrev pub status_in : String → Tables → Option OperationStatus
status_in id t = Option.map (λ o. o.status) (find (λ (o : Operation). o.id) id t.operations)

abbrev pub instances_in : Tables → List Instance
instances_in t = t.instances

abbrev pub operations_in : Tables → List Operation
operations_in t = t.operations

-- The instances and the operations together.
abbrev pub rows_in : Tables → List Instance × List Operation
rows_in t = (t.instances, t.operations)

module _ {X : Type 0} {f : Tables → X} (d : Database) (ctx : Context) (id : String) where
  pub get_instance-Keeps : Keeps f (get_instance d ctx id)
  unfolding get_instance
  get_instance-Keeps = Keeps-db d ctx _ (record { at = λ w. refl })

  pub get_operation-Keeps : Keeps f (get_operation d ctx id)
  unfolding get_operation
  get_operation-Keeps = Keeps-db d ctx _ (record { at = λ w. refl })

  pub get_image-Keeps : Keeps f (get_image d ctx id)
  unfolding get_image
  get_image-Keeps = Keeps-db d ctx _ (record { at = λ w. refl })

module _ (d : Database) (ctx : Context) (id : String) where
  pub update_image_status-Keeps :
      (s : ImageStatus) (n : ℕ) (m : String) → Keeps rows_in (update_image_status d ctx id s n m)
  unfolding update_image_status
  update_image_status-Keeps s n m = Keeps-db d ctx _ (record { at = λ w. refl })

  set_instance-Keeps :
      (change : ℕ → Instance → Instance) → Keeps operations_in (set_instance d ctx id change)
  unfolding set_instance
  set_instance-Keeps change = Keeps-db d ctx _ (record { at = λ w. refl })

  pub update_instance_state-Keeps :
      (s : State) (m : String) → Keeps operations_in (update_instance_state d ctx id s m)
  unfolding update_instance_state
  update_instance_state-Keeps s m =
      Keeps-bind _ _ (set_instance-Keeps (with_state s m)) (λ _. get_instance-Keeps d ctx id)

  pub update_instance_console-Keeps :
      (v u : String) → Keeps operations_in (update_instance_console d ctx id v u)
  unfolding update_instance_console
  update_instance_console-Keeps v u =
      Keeps-bind _ _ (set_instance-Keeps (with_console v u)) (λ _. get_instance-Keeps d ctx id)

  pub finish_operation-Keeps :
      (s : OperationStatus) (m : String) → Keeps instances_in (finish_operation d ctx id s m)
  unfolding finish_operation
  finish_operation-Keeps s m =
      Keeps-bind _ _ (Keeps-db d ctx _ (record { at = λ w. refl }))
        (λ _. get_operation-Keeps d ctx id)

  pub create_operation-Keeps : (a m : String) → Keeps instances_in (create_operation d ctx id a m)
  unfolding create_operation
  create_operation-Keeps a m = record {
    at = λ w.
        (Keeps-db {f = instances_in} d ctx (insert_operation (new_operation d id a m w))
            (record { at = λ v. refl })).at
          w;
  }

  pub get_instance_ok :
      (w : World) (i : Instance)
      → (get_instance d ctx id w).0 ≡ ok i
      → (j : Instance) × (find (λ (i : Instance). i.id) id w.instances ≡ some j)
        × (i ≡ scan_instance j)
  unfolding get_instance advance scan_row
  get_instance_ok w i h =
      let e = db_ok d ctx (λ v. (scan_row (find (λ i. i.id) id v.instances), v)) w i h in
      elim (Option-cases (find (λ (i : Instance). i.id) id w.instances)) [
        | inl n ↦ cc (n, ap (λ r. r.0) e, h)
        | inr (j, n) ↦ (j, n, cc (n, ap (λ r. r.0) e, h))
      ]

  set_instance_ok :
      (change : ℕ → Instance → Instance) (w : World) (u : Unit)
      → (set_instance d ctx id change w).0 ≡ ok u
      → (set_instance d ctx id change w).1.tables.instances
        ≡ update (λ i. i.id) id (change (advance d w).now) w.tables.instances
  unfolding set_instance advance
  set_instance_ok change w u h =
      ap (λ r. r.1.tables.instances) (db_ok d ctx (write_instance id change) w u h)

  pub get_instance_tables : (w : World) → (get_instance d ctx id w).1.tables ≡ w.tables
  get_instance_tables w = (get_instance-Keeps {f = λ t. t} d ctx id).at w

  -- A successful update found the row and left the new state and error in it.
  pub update_instance_state_ok :
      (s : State) (m : String) (w : World) (i : Instance)
      → (update_instance_state d ctx id s m w).0 ≡ ok i
      → state_in id (update_instance_state d ctx id s m w).1.tables ≡ some s
  unfolding update_instance_state
  update_instance_state_ok s m w i =
      bind-rule (λ r v. r ≡ ok i → state_in id v.tables ≡ some s)
        (set_instance d ctx id (with_state s m)) (λ _. get_instance d ctx id) w (λ e p q. cc)
        (λ u p q.
          let v = (set_instance d ctx id (with_state s m) w).1 in
          let (j, e, _) = get_instance_ok v i q in
          rw (ap (state_in id) (get_instance_tables v)) (
            ground (
              arith,
              e,
              set_instance_ok (with_state s m) w u p,
              find-update_self (λ (i : Instance). i.id) (with_state s m (advance d w).now)
                  (λ i. refl) id w.tables.instances,
            )))

  -- Finishing an operation writes the given status or, on a failed write, nothing.
  pub finish_operation_status :
      (s : OperationStatus) (m : String) (w : World) (op : String)
      → op ≡ id
      → (status_in op (finish_operation d ctx id s m w).1.tables ≡ status_in op w.tables)
        ⊎ (status_in op (finish_operation d ctx id s m w).1.tables
            ≡ Option.map (λ _. s) (status_in op w.tables))
  unfolding finish_operation advance
  finish_operation_status s m w op same =
      let write = write_operation id (with_status s m) in
      let e =
        bind-tables (db d ctx write) (λ _. get_operation d ctx id)
          (λ _. get_operation-Keeps d ctx id) w in
      rw (ap (status_in op) e, same)
        (elim (db-cases d ctx write w) [
          | inl h ↦ inr (
              rw h (
                ground (
                  arith,
                  find-update_self (λ (o : Operation). o.id) (with_status s m (advance d w).now)
                      (λ o. refl) id w.tables.operations,
                )))
          | inr (x, h) ↦ inl (rw h refl)
        ])

  pub update_instance_console_state :
      (v u other : String) → Keeps (state_in other) (update_instance_console d ctx id v u)
  unfolding update_instance_console set_instance
  update_instance_console_state v u other =
      Keeps-bind _ _
        (Keeps-db d ctx _ (record {
          at = λ w.
              column-update (λ (i : Instance). i.id) (λ i. i.state) id other
                (with_console v u w.now) w.tables.instances (λ i. refl) (λ i. refl);
        }))
        (λ _. get_instance-Keeps d ctx id)

  delete_rows-Keeps :
      (w : World) (o : Option Instance) → (delete_rows id w o).1.tables.operations ≡ w.operations
  unfolding delete_rows
  delete_rows-Keeps w none = refl
  delete_rows-Keeps w (some i) = refl

  pub delete_instance-Keeps : Keeps operations_in (delete_instance d ctx id)
  unfolding delete_instance
  delete_instance-Keeps = Keeps-db d ctx _ (record { at = λ w. delete_rows-Keeps w _ })

  delete_rows_ok :
      (w : World) (o : Option Instance) (u : Unit)
      → (delete_rows id w o).0 ≡ ok u
      → state_in id (delete_rows id w o).1.tables ≡ none
  unfolding delete_rows
  delete_rows_ok w none u h = cc
  delete_rows_ok w (some i) u h =
      rw (find-remove_self (λ (i : Instance). i.id) id w.tables.instances)

  -- A successful delete leaves no row.
  pub delete_instance_ok :
      (w : World) (u : Unit)
      → (delete_instance d ctx id w).0 ≡ ok u
      → state_in id (delete_instance d ctx id w).1.tables ≡ none
  unfolding delete_instance
  delete_instance_ok w u h =
      let e = db_ok d ctx (λ v. delete_rows id v (find (λ i. i.id) id v.instances)) w u h in
      rw (ap (λ r. state_in id r.1.tables) e)
        (delete_rows_ok (advance d w) _ u (sym (ap (λ r. r.0) e) ∙ h))

  -- A row that is read has the state that the table holds.
  pub get_instance_state :
      (w : World) (i : Instance)
      → (get_instance d ctx id w).0 ≡ ok i
      → state_in id w.tables ≡ some i.state
  unfolding scan_instance
  get_instance_state w i h = let (j, e, k) = get_instance_ok w i h in ground (arith, e, k)

  pub create_operation_ok :
      (a m : String) (w : World) (o : Operation)
      → (create_operation d ctx id a m w).0 ≡ ok o
      → ((create_operation d ctx id a m w).1.tables.operations ≡ o ∷ w.tables.operations)
        × (o ≡ new_operation d id a m w)
  unfolding create_operation advance
  create_operation_ok a m w o h =
      let e = db_ok d ctx (insert_operation (new_operation d id a m w)) w o h in
      let same : new_operation d id a m w ≡ o = cc h in
      (ap (λ r. r.1.tables.operations) e ∙ ap (λ x. x ∷ w.tables.operations) same, sym same)

  -- The row that a successful update answers with has the new state.
  pub update_instance_state_row :
      (s : State) (m : String) (w : World) (i : Instance)
      → (update_instance_state d ctx id s m w).0 ≡ ok i
      → i.state ≡ s
  unfolding update_instance_state
  update_instance_state_row s m w i h =
      bind-rule (λ r v. r ≡ ok i → state_in id v.tables ≡ some s → i.state ≡ s)
        (set_instance d ctx id (with_state s m)) (λ _. get_instance d ctx id) w (λ e p q. cc)
        (λ u p q k.
          let v = (set_instance d ctx id (with_state s m) w).1 in
          let read = get_instance_state v i q in
          let written = ap (state_in id) (get_instance_tables v) in
          ground (arith, read, written, k))
        h (update_instance_state_ok s m w i h)
