-- ===== src/Store/Create.antt =====
-- backend/internal/store/sqlite.go: the ports of a new device, and the row that CreateInstance
-- inserts once its image is known. Rows of desktop and physical devices hold port 0.
pub mod Ports
use open_cuttles.Domain.{Source, ConsoleProvider, State, Platform, Instance}
use open_cuttles.Store.{db, World, Context, Database}
use open_cuttles.Base.{
  leb, Option, ℕ, List, String, ◌+◌, [], ◌∷◌, if◌then◌else◌, zero, suc, none, some,
}
use open_cuttles.Base.Int.{negsuc, pos, ℤ, sub_ℕ}
use open_cuttles.Go.{Exec, ok}
use open_cuttles.Go.Strings.{decimal}
use open_cuttles.Orchestrator.Ready.{console_client_url}
use Prim.Native.String.{◌++◌ as concat}

abbrev pub base_port : ℕ
base_port = 6520

abbrev pub webrtc_operator_port : ℕ
webrtc_operator_port = 1443

unfoldable pub larger : ℕ → Option ℕ → Option ℕ
larger n none = some n
larger n (some m) = some (if leb n m then m else n)

-- SELECT MAX(adb_port) FROM instances
unfoldable pub max_adb : List Instance → Option ℕ
unfolding larger
max_adb [] = none
max_adb (i ∷ rest) = larger i.adb_port (max_adb rest)

unfoldable pub next_adb : List Instance → ℕ
unfolding max_adb
next_adb rows = elim (max_adb rows) [ none ↦ base_port | some n ↦ n + 1 ]

-- adbPort - basePort + 1
unfoldable pub instance_number_of : ℕ → ℤ
instance_number_of port = sub_ℕ (port + 1) base_port

unfoldable pub provisional_id : ℕ → String
unfolding decimal instance_number_of
provisional_id port =
    let n = decimal (instance_number_of port) in
    concat "cvd_" (concat n (concat "-" (concat n "-1")))

unfoldable pub non_zero : ℤ → ℕ → ℕ
non_zero (pos zero) fallback = fallback
non_zero (pos (suc n)) fallback = suc n
non_zero (negsuc n) fallback = fallback

pub record CreateInstanceRequest : Type 0 where
  pub name : String
  pub android_version : String
  pub cpu_cores : ℤ
  pub memory_mb : ℤ
  pub display_width : ℤ
  pub display_height : ℤ
  pub dpi : ℤ

unfoldable pub new_instance : CreateInstanceRequest → String → String → ℕ → ℕ → Instance
unfolding non_zero provisional_id console_client_url
new_instance req id image_id port now = record {
  id = id;
  name = req.name;
  platform = Platform.android;
  control_endpoint = "";
  image_id = image_id;
  android_version = req.android_version;
  state = State.stopped;
  cpu_cores = non_zero req.cpu_cores 2;
  memory_mb = non_zero req.memory_mb 4096;
  display_width = non_zero req.display_width 720;
  display_height = non_zero req.display_height 1280;
  dpi = pos (non_zero req.dpi 320);
  adb_port = port;
  webrtc_port = webrtc_operator_port;
  device_id = provisional_id port;
  console_provider = ConsoleProvider.cuttlefish_webrtc;
  console_url = console_client_url id (provisional_id port);
  last_error = "";
  updated_at = now;
  src = Source.unset;
  adb_target = "";
}

-- The transaction: the port is read and the row inserted with nothing between.
unfoldable pub insert_instance :
    Database → Context → CreateInstanceRequest → String → Exec World Instance
unfolding next_adb new_instance
insert_instance d ctx req image_id = db d ctx λ w.
    let i = new_instance req (d.new_id w.tick "cvd") image_id (next_adb w.instances) w.now in
    (ok i, record w { tables = record w.tables { instances = i ∷ w.instances } })
