-- ===== src/Domain.antt =====
-- backend/internal/domain/models.go: the records that the parts share. A field whose values are
-- declared constants is a data type; times are milliseconds.
use open_cuttles.Base.Int.{ℤ}
use open_cuttles.Base.{ℕ, String, Bool, true, false, List, Option}

pub data State : Type 0 where
  provisioning starting booting running stopping stopped error deleting online offline : State

pub State-discrete : Discrete State
State-discrete = hlevel

-- `unset` is the empty string of rows that predate the column.
pub data Platform : Type 0 where
  unset android windows linux macos : Platform

pub Platform-discrete : Discrete Platform
Platform-discrete = hlevel

pub data Source : Type 0 where
  unset cuttlefish physical runner : Source

pub data ImageStatus : Type 0 where
  pending fetching ready error : ImageStatus

pub data OperationStatus : Type 0 where
  running succeeded failed : OperationStatus

pub data ConsoleProvider : Type 0 where
  cuttlefish_webrtc screenshot : ConsoleProvider

pub record Image : Type 0 where
  pub id : String
  pub path : String
  pub build_target : String
  pub version_id : String
  pub status : ImageStatus
  pub size_bytes : ℕ
  pub last_error : String

pub record Instance : Type 0 where
  pub id : String
  pub name : String
  pub platform : Platform
  pub control_endpoint : String
  pub image_id : String
  pub android_version : String
  pub state : State
  pub cpu_cores : ℕ
  pub memory_mb : ℕ
  pub display_width : ℕ
  pub display_height : ℕ
  pub dpi : ℤ
  pub adb_port : ℕ
  pub webrtc_port : ℕ
  pub device_id : String
  pub console_provider : ConsoleProvider
  pub console_url : String
  pub last_error : String
  pub updated_at : ℕ
  pub src : Source
  pub adb_target : String

-- Instance.Source
unfoldable pub source : Instance → Source
source i = elim i.src [ unset ↦ cuttlefish | s ↦ s ]

-- Instance.IsProvisioned
unfoldable pub is_provisioned : Instance → Bool
unfolding source
is_provisioned i = elim (source i) [ cuttlefish ↦ true | _ ↦ false ]

pub record Operation : Type 0 where
  pub id : String
  pub instance_id : String
  pub action : String
  pub status : OperationStatus
  pub message : String
  pub created_at : ℕ
  pub finished_at : Option ℕ

-- "pass", "fail" and "blocked"; any other text, the empty one of a legacy step among them.
pub data StepStatus : Type 0 where
  pass fail blocked : StepStatus
  other : String → StepStatus

pub record StepResult : Type 0 where
  pub index : ℕ
  pub text : String
  pub verb : String
  pub target : String
  pub value : String
  pub x : ℤ
  pub y : ℤ
  pub model_out : String
  pub pass : Bool
  pub status : StepStatus
  pub detail : String
  pub duration_ms : ℕ
  pub screenshot : String
  pub battery : ℤ

-- The status of a test run or a cycle run.
pub data RunStatus : Type 0 where
  unset running passed failed : RunStatus

pub record TestRun : Type 0 where
  pub id : String
  pub test_id : String
  pub test_name : String
  pub instance_id : String
  pub status : RunStatus
  pub passed : Bool
  pub steps : List StepResult
  pub video : String
  pub error : String
  pub started_at : ℕ
  pub finished_at : Option ℕ
  pub cycle_run_id : String
  pub case_id : String

pub record TestStep : Type 0 where
  pub index : ℕ
  pub action : String
  pub test_data : String
  pub expected : String

pub record TestCase : Type 0 where
  pub id : String
  pub summary : String
  pub description : String
  pub precondition : String
  pub priority : String
  pub status : String
  pub labels : List String
  pub components : List String
  pub folder_path : String
  pub steps : List TestStep
  pub external_key : String
  pub created_at : ℕ
  pub updated_at : ℕ

pub record TestCycle : Type 0 where
  pub id : String
  pub name : String
  pub platform : Platform
  pub build_id : String
  pub environment : String
  pub case_ids : List String
  pub cron : String
  pub timezone : String
  pub on_new_build : Bool
  pub enabled : Bool
  pub last_run_at : Option ℕ
  pub next_run_at : Option ℕ
  pub created_at : ℕ

pub data CycleTrigger : Type 0 where
  manual cron build : CycleTrigger

pub record CycleTotals : Type 0 where
  pub cases : ℕ
  pub pass : ℕ
  pub fail : ℕ
  pub blocked : ℕ
  pub not_run : ℕ

pub record CycleRun : Type 0 where
  pub id : String
  pub cycle_id : String
  pub cycle_name : String
  pub trigger : CycleTrigger
  pub build_id : String
  pub instance_id : String
  pub status : RunStatus
  pub totals : CycleTotals
  pub started_at : ℕ
  pub finished_at : Option ℕ

pub record Build : Type 0 where
  pub id : String
  pub platform : Platform
  pub filename : String
  pub path : String
  pub size_bytes : ℕ
  pub version : String
  pub status : String
  pub note : String
  pub created_at : ℕ
  pub sha256 : String
