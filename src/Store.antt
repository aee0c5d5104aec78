-- ===== src/Store.antt =====
-- backend/internal/store/sqlite.go: the tables that the orchestrator reads and writes, each
-- method one or more database calls. SQLite itself is not under the repository: a call fails when
-- its context has expired, as database/sql documents, or when `db_fault` says so.
pub mod Rows
pub mod Keeps
pub mod Laws
pub mod ImagePath
pub mod Create
pub mod Register
pub mod Registered
use open_cuttles.Base.Int.{ℤ}
use Rows.{find, update, remove}
use open_cuttles.Base.{
  ℕ, ◌+◌, String, Bool, false, Option, none, some, List, [], ◌∷◌, leb, if◌then◌else◌,
}
use open_cuttles.Go.{Error, no_rows, Result, ok, err, deadline_exceeded, Exec, ◌>>◌}
use open_cuttles.Domain.{State, Platform, Image, ImageStatus, Instance, Operation, OperationStatus}

-- An argument of a command line: a fixed text, a text with a number behind it, or with a text.
pub data Argument : Type 0 where
  word : String → Argument
  number : String → ℤ → Argument
  setting : String → String → Argument

pub record Command : Type 0 where
  pub dir : String
  pub program : String
  pub arguments : List Argument

pub record Tables : Type 0 where
  pub instances : List Instance
  pub operations : List Operation
  pub images : List Image

-- The database, the clock (milliseconds) and the commands that were run, oldest first. `tick`
-- counts the calls that left the program.
pub record World : Type 0 where
  pub tick : ℕ
  pub now : ℕ
  pub tables : Tables
  pub open tables use *
  pub commands : List Command

-- What the database and the clock do at each tick; `new_id` is newID without its prefix.
pub record Database : Type 0 where
  pub latency : ℕ → ℕ
  pub db_fault : ℕ → Option Error
  pub new_id : ℕ → String → String

-- A context by its deadline; `none` is context.Background().
abbrev pub Context : Type 0
Context = Option ℕ

unfoldable pub expired : Context → ℕ → Bool
expired none now = false
expired (some deadline) now = leb deadline now

unfoldable pub advance : Database → World → World
advance d w = record w { tick = w.tick + 1; now = w.now + d.latency w.tick }

unfoldable pub db_failure : Database → Context → World → Option Error
db_failure d ctx w =
    if expired ctx (advance d w).now then some deadline_exceeded else d.db_fault w.tick

unfoldable pub run_or_fail : {A : Type 0} → Option Error → Exec World A → Exec World A
run_or_fail (some e) body w = (err e, w)
run_or_fail none body w = body w

unfoldable pub db : {A : Type 0} → Database → Context → Exec World A → Exec World A
unfolding run_or_fail
db d ctx body w = run_or_fail (db_failure d ctx w) body (advance d w)

-- row.Scan of a query for one row
unfoldable pub one_row : {A : Type 0} → Option A → Result A
one_row none = err no_rows
one_row (some a) = ok a

-- scanInstance: a row without a platform is an Android device
unfoldable pub scan_instance : Instance → Instance
scan_instance i = elim i.platform [
  | Platform.unset ↦ record i { platform = Platform.android }
  | _ ↦ i
]

unfoldable pub scan_row : Option Instance → Result Instance
scan_row none = err no_rows
scan_row (some i) = ok (scan_instance i)

unfoldable pub get_instance : Database → Context → String → Exec World Instance
get_instance d ctx id = db d ctx (λ w. (scan_row (find (λ i. i.id) id w.instances), w))

-- UPDATE instances SET … WHERE id = ?
abbrev pub write_instance : String → (ℕ → Instance → Instance) → Exec World Unit
write_instance id change w = (
  ok tt,
  record w {
    tables = record w.tables { instances = update (λ i. i.id) id (change w.now) w.instances };
  },
)

unfoldable pub set_instance :
    Database → Context → String → (ℕ → Instance → Instance) → Exec World Unit
set_instance d ctx id change = db d ctx (write_instance id change)

abbrev pub with_state : State → String → ℕ → Instance → Instance
with_state s message now i = record i { state = s; last_error = message; updated_at = now }

unfoldable pub update_instance_state :
    Database → Context → String → State → String → Exec World Instance
update_instance_state d ctx id s message = do
  set_instance d ctx id (with_state s message)
  get_instance d ctx id

abbrev pub with_console : String → String → ℕ → Instance → Instance
with_console device url now i = record i { device_id = device; console_url = url; updated_at = now }

unfoldable pub update_instance_console :
    Database → Context → String → String → String → Exec World Instance
update_instance_console d ctx id device url = do
  set_instance d ctx id (with_console device url)
  get_instance d ctx id

abbrev pub with_display : ℕ → ℕ → ℤ → ℕ → Instance → Instance
with_display width height dpi now i = record i {
  display_width = width;
  display_height = height;
  dpi = dpi;
  updated_at = now;
}

unfoldable pub update_instance_display : Database → Context → String → ℕ → ℕ → ℤ → Exec World Unit
update_instance_display d ctx id width height dpi =
    set_instance d ctx id (with_display width height dpi)

unfoldable pub delete_rows : String → World → Option Instance → Result (Unit {0}) × World
delete_rows id w none = (err no_rows, w)
delete_rows id w (some i) =
    (ok tt, record w { tables = record w.tables { instances = remove (λ i. i.id) id w.instances } })

unfoldable pub delete_instance : Database → Context → String → Exec World Unit
unfolding delete_rows
delete_instance d ctx id = db d ctx (λ w. delete_rows id w (find (λ i. i.id) id w.instances))

unfoldable pub scan_all : List Instance → List Instance
scan_all [] = []
scan_all (i ∷ rest) = scan_instance i ∷ scan_all rest

-- Rows are kept newest first, the order of every listing.
unfoldable pub list_instances : Database → Context → Exec World (List Instance)
list_instances d ctx = db d ctx (λ w. (ok (scan_all w.instances), w))

abbrev pub insert_operation : Operation → Exec World Operation
insert_operation o w =
    (ok o, record w { tables = record w.tables { operations = o ∷ w.operations } })

abbrev pub new_operation : Database → String → String → String → World → Operation
new_operation d instance_id action message w = record {
  id = d.new_id w.tick "op";
  instance_id = instance_id;
  action = action;
  status = OperationStatus.running;
  message = message;
  created_at = w.now;
  finished_at = none;
}

unfoldable pub create_operation :
    Database → Context → String → String → String → Exec World Operation
create_operation d ctx instance_id action message w =
    db d ctx (insert_operation (new_operation d instance_id action message w)) w

unfoldable pub get_operation : Database → Context → String → Exec World Operation
get_operation d ctx id = db d ctx (λ w. (one_row (find (λ o. o.id) id w.operations), w))

abbrev pub with_status : OperationStatus → String → ℕ → Operation → Operation
with_status s message now o = record o { status = s; message = message; finished_at = some now }

abbrev pub write_operation : String → (ℕ → Operation → Operation) → Exec World Unit
write_operation id change w = (
  ok tt,
  record w {
    tables = record w.tables { operations = update (λ o. o.id) id (change w.now) w.operations };
  },
)

unfoldable pub finish_operation :
    Database → Context → String → OperationStatus → String → Exec World Operation
finish_operation d ctx id s message = do
  db d ctx (write_operation id (with_status s message))
  get_operation d ctx id

unfoldable pub get_image : Database → Context → String → Exec World Image
get_image d ctx id = db d ctx (λ w. (one_row (find (λ i. i.id) id w.images), w))

abbrev pub with_image_status : ImageStatus → ℕ → String → Image → Image
with_image_status s size message i = record i {
  status = s;
  size_bytes = size;
  last_error = message;
}

unfoldable pub update_image_status :
    Database → Context → String → ImageStatus → ℕ → String → Exec World Unit
update_image_status d ctx id s size message = db d ctx (λ w. (
  ok tt,
  record w {
    tables = record w.tables {
      images = update (λ i. i.id) id (with_image_status s size message) w.images;
    };
  },
))
