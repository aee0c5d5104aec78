-- ===== src/Store/Create/Ports.antt =====
-- The ADB port that a new device gets.
use open_cuttles.Base.{
  subst, leb, Option-cases, ℕ, String, All, List, ◌+◌, ◌≡◌, ◌≤◌, ◌<◌, ◌∙◌, inl, inr, [], ◌∷◌,
  if◌then◌else◌, some, refl, sym, ap, arith,
}
use open_cuttles.Go.Laws.{ok_injective}
use open_cuttles.Store.{advance, World, Context, Database}
use open_cuttles.Store.Keeps.{db_ok}
use open_cuttles.Store.Create.{
  new_instance, max_adb, next_adb, insert_instance, instance_number_of, larger,
  CreateInstanceRequest,
}
use open_cuttles.Base.Int.{negsuc}
use open_cuttles.Domain.{Instance}
use open_cuttles.Go.{ok}

bounded :
    (n : ℕ) (rows : List Instance)
    → ((m : ℕ) → max_adb rows ≡ some m → m ≤ n)
    → All (λ i. i.adb_port < n + 1) rows
unfolding max_adb larger
bounded n [] h = tt
bounded n (i ∷ rest) h = elim (Option-cases (max_adb rest)) [
  | inl e ↦ (ground (arith, h i.adb_port (rw e refl)), bounded n rest (λ m f. cc (e, f)))
  | inr (k, e) ↦
      let top = h (if leb i.adb_port k then k else i.adb_port) (rw e refl) in
      (ground (arith, top), bounded n rest (λ m f. ground (arith, top, e, f)))
]

-- Every port that is in use is below the next one.
next_adb-fresh : (rows : List Instance) → All (λ i. i.adb_port < next_adb rows) rows
unfolding next_adb
next_adb-fresh rows = elim (Option-cases (max_adb rows)) [
  | inl e ↦ rw (e, next_adb) (bounded 6519 rows (λ m f. cc (e, f)))
  | inr (k, e) ↦ rw (e, next_adb) (bounded k rows (λ m f. ground (arith, e, f)))
]

-- A device that is inserted is the newest row, and its ADB port is above that of every other row.
pub insert_instance-fresh :
    (d : Database) (ctx : Context) (req : CreateInstanceRequest) (image_id : String) (w : World)
    (i : Instance)
    → (insert_instance d ctx req image_id w).0 ≡ ok i
    → ((insert_instance d ctx req image_id w).1.tables.instances ≡ i ∷ w.tables.instances)
      × All (λ j. j.adb_port < i.adb_port) w.tables.instances
unfolding insert_instance new_instance advance
insert_instance-fresh d ctx req image_id w i h =
    let done = db_ok d ctx _ w i h in
    let same = ok_injective (sym (ap (λ r. r.0) done) ∙ h) in
    (
      ap (λ r. r.1.tables.instances) done ∙ ap (λ j. j ∷ w.tables.instances) same,
      subst (λ (j : Instance). All (λ k. k.adb_port < j.adb_port) w.tables.instances) same
          (next_adb-fresh w.tables.instances),
    )

portless :
    (i : Instance) (rows : List Instance)
    → All (λ j. j.adb_port ≡ 0) (i ∷ rows)
    → max_adb (i ∷ rows) ≡ some 0
unfolding max_adb larger
portless i [] h = ap some h.0
portless i (j ∷ rows) h = rw (portless j rows h.1, h.0) refl

-- Where the table holds devices and none of them has a port, the next port is 1, and the number of
-- the device that gets it is -6518.
pub next_adb-portless :
    (i : Instance) (rows : List Instance)
    → All (λ j. j.adb_port ≡ 0) (i ∷ rows)
    → (next_adb (i ∷ rows) ≡ 1) × (instance_number_of (next_adb (i ∷ rows)) ≡ negsuc 6517)
unfolding next_adb instance_number_of
next_adb-portless i rows h = rw (portless i rows h, next_adb) (refl, refl)
