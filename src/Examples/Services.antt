-- ===== src/Examples/Services.antt =====
-- The theorems about the runner hub, the pruner and the scheduler, applied.
use open_cuttles.Scheduler.Advance.{AllFired, tick-advances, has_target, started, advanced}
use open_cuttles.Go.{ok}
use open_cuttles.Base.{
  keep, map, String, ◌+◌, ◌≡◌, ◌≢◌, [], ◌∷◌, true, false, none, some, refl, arith,
}
use open_cuttles.Retention.Cutoff.{prune_for-overflow}
use open_cuttles.Base.Int.{pos}
use open_cuttles.Go.Strings.{codes, is_prefix}
use open_cuttles.Domain.{Platform, State, TestCycle}
use open_cuttles.RunnerHub.Mailbox.{begin_call-resolve}
use open_cuttles.RunnerHub.Superseded.{disconnect-post_result}
use open_cuttles.Examples.{device}
use open_cuttles.RunnerHub.{
  Hub, Session, Reply, Call, begin_call, resolve, connect, online, disconnect, post_result,
}
use open_cuttles.Retention.{Entry, prune_for}
use open_cuttles.Scheduler.{Calendar, Tick, tick}
use open_cuttles.Store.Rows.{find}

abbrev session : Session
session = record { pending = []; seq = 6; closed = false }

abbrev reply : Reply
reply = record { id = "7"; result = "done"; error = "" }

abbrev waiting_call : Session
waiting_call = (begin_call session).1

begin_call-resolve_example :
    (find (λ (c : Call). c.id) "7" (resolve reply waiting_call).pending
      ≡ some (record { id = "7"; mailbox = some reply }))
    × ((other : String)
        → other ≢ "7"
        → find (λ (c : Call). c.id) other (resolve reply waiting_call).pending
          ≡ find (λ (c : Call). c.id) other [])
    × (resolve reply (resolve reply waiting_call) ≡ resolve reply waiting_call)
unfolding begin_call
begin_call-resolve_example = begin_call-resolve session reply reply refl refl

-- Session 0 is connected for the one device there is.
abbrev hub : Hub
hub = record {
  sessions = λ d. some 0;
  heap = λ n. session;
  allocated = 1;
  reported = λ d. some true;
}

abbrev redialed : Hub
redialed = (connect "dev" hub).1

abbrev revoked : Hub
revoked = (disconnect "dev" hub).1

disconnect-post_result_example :
    ((disconnect "dev" hub).0 ≡ true)
    × (online "dev" revoked ≡ false)
    × ((revoked.heap 0).closed ≡ true)
    × (post_result none (some reply) revoked ≡ (401, revoked))
    × (post_result (some "dev") (some reply) revoked ≡ (410, revoked))
disconnect-post_result_example = disconnect-post_result "dev" 0 hub reply refl

abbrev run_dir : Entry
run_dir = record { name = "run_1"; is_dir = true; mod_time = ok 0 }

abbrev builds : String
builds = "builds"

-- A directory of this moment, with a retention of 200000 days.
prune_for-overflow_example : prune_for 0 (pos 200000) (ok (run_dir ∷ [])) ≡ "run_1" ∷ []
unfolding is_prefix codes
prune_for-overflow_example =
    prune_for-overflow 0 200000 run_dir 0 (omega arith) (omega arith) refl (λ e. cc e) refl refl
      (omega arith)

abbrev calendar : Calendar
calendar = record { parse_standard = λ spec. ok (λ t. t + 60); load_location = λ tz. none }

abbrev pub nightly : TestCycle
nightly = record {
  id = "c";
  name = "nightly";
  platform = Platform.android;
  build_id = "";
  environment = "";
  case_ids = [];
  cron = "0 2 * * *";
  timezone = "";
  on_new_build = false;
  enabled = true;
  last_run_at = none;
  next_run_at = some 0;
  created_at = 0;
}

abbrev moment : Tick
moment = record {
  now = 100;
  due = ok (nightly ∷ []);
  instances = λ c. ok (device State.running ∷ []);
}

tick-advances_example :
    (advanced (tick calendar moment) ≡ "c" ∷ [])
    × (started (tick calendar moment)
        ≡ map (λ (k : TestCycle). k.id) (keep (has_target moment) (nightly ∷ [])))
    × AllFired calendar moment (nightly ∷ []) (tick calendar moment)
tick-advances_example = tick-advances calendar moment (nightly ∷ []) refl
