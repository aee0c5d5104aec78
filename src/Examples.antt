-- ===== src/Examples.antt =====
-- A small host and its tables, and the tests on them.
mod Devices
mod Cycles
mod Services
mod Accounts
mod Control
mod Scripted
mod Login
mod Desk
mod Sheets
mod Requests
use open_cuttles.Base.Int.{pos}
use open_cuttles.Base.{str_eq, List, [], ◌∷◌, true, none, some}
use open_cuttles.Domain.{
  Source, Instance, Operation, State, Platform, ConsoleProvider, OperationStatus,
}
use open_cuttles.Store.ImagePath.{FileSystem}
use open_cuttles.Go.{ok}
use open_cuttles.Store.{World, Database}
use open_cuttles.Orchestrator.{Machine}

abbrev pub database : Database
database = record { latency = λ _. 10; db_fault = λ _. none; new_id = λ n prefix. prefix }

abbrev pub files : FileSystem
files = record {
  image_root = "/images";
  clean_abs = λ path. ok path;
  eval_symlinks = λ path. ok path;
  is_dir = λ path. true;
}

-- A host with the legacy tools, on which every command succeeds.
abbrev pub host : Machine
host = record {
  database = database;
  fs = files;
  live = true;
  instance_root = "/instances";
  look_path = λ program. str_eq program "launch_cvd";
  mkdir_all = λ path. none;
  entry_count = λ path. some 1;
  command_output = λ tick c. "1";
  command_error = λ tick c. none;
  http_status = λ tick. some 200;
  operator_devices = λ tick. none;
}

abbrev pub device : State → Instance
device s = record {
  id = "dev";
  name = "phone";
  platform = Platform.android;
  control_endpoint = "";
  image_id = "img";
  android_version = "14";
  state = s;
  cpu_cores = 2;
  memory_mb = 4096;
  display_width = 720;
  display_height = 1280;
  dpi = pos 320;
  adb_port = 6520;
  webrtc_port = 1443;
  device_id = "cvd_1-1-1";
  console_provider = ConsoleProvider.cuttlefish_webrtc;
  console_url = "";
  last_error = "";
  updated_at = 0;
  src = Source.unset;
  adb_target = "";
}

abbrev pub operation : Operation
operation = record {
  id = "op";
  instance_id = "dev";
  action = "stop";
  status = OperationStatus.running;
  message = "";
  created_at = 0;
  finished_at = none;
}

abbrev pub world : State → List Operation → World
world s operations = record {
  tick = 0;
  now = 0;
  tables = record { instances = device s ∷ []; operations = operations; images = [] };
  commands = [];
}
