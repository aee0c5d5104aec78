-- ===== src/CaseStore/Cycles.antt =====
-- backend/internal/store/cases.go: test cycles and builds.
use open_cuttles.Go.Times.{written_le}
use open_cuttles.Base.{
  keep, map, str_eq, any, String, not, Bool, Option, ℕ, List, ◌&&◌, ◌∷◌, if◌then◌else◌, true, false,
  none, some,
}
use open_cuttles.Go.{message, raise, Exec, no_rows, Result, ok, err}
use open_cuttles.Store.Rows.{update, remove, find}
use open_cuttles.CaseStore.{modify, select, Ledger, stamped, Archive, query}
use open_cuttles.Store.{one_row, Context, Database}
use open_cuttles.Domain.{Build, CycleRun, Platform, TestCycle, RunStatus}
use open_cuttles.CaseStore.Cases.{is_blank}

unfoldable pub platform_or_android : Platform → Platform
platform_or_android Platform.unset = Platform.android
platform_or_android p = p

unfoldable pub create_test_cycle : Database → Context → TestCycle → Exec Ledger TestCycle
unfolding query stamped is_blank platform_or_android
create_test_cycle d ctx c =
    if is_blank c.name
    then raise (message "a test cycle needs a name")
    else stamped λ w.
      let c' = record c {
        id = d.new_id w.tick "cycle";
        created_at = w.now;
        platform = platform_or_android c.platform;
      } in
      query d ctx (λ a. (ok c', record a { cycles = c' ∷ a.cycles }))

unfoldable pub set_cycle :
    Database → Context → String → (TestCycle → TestCycle) → Exec Ledger (Unit {0})
unfolding query
set_cycle d ctx id change =
    query d ctx
      (modify λ a. record a { cycles = update (λ (c : TestCycle). c.id) id change a.cycles })

-- Every column but id and created_at
unfoldable pub update_test_cycle : Database → Context → TestCycle → Exec Ledger (Unit {0})
unfolding set_cycle
update_test_cycle d ctx c =
    set_cycle d ctx c.id (λ row. record c { id = row.id; created_at = row.created_at })

abbrev pub with_schedule : Option ℕ → Option ℕ → TestCycle → TestCycle
with_schedule last next c = record c { last_run_at = last; next_run_at = next }

unfoldable pub set_cycle_schedule :
    Database → Context → String → Option ℕ → Option ℕ → Exec Ledger (Unit {0})
unfolding set_cycle
set_cycle_schedule d ctx id last next = set_cycle d ctx id (with_schedule last next)

-- scanTestCycle
unfoldable pub scan_cycle : TestCycle → TestCycle
unfolding platform_or_android
scan_cycle c = record c { platform = platform_or_android c.platform }

unfoldable pub scanned_cycle : Option TestCycle → Result TestCycle
unfolding scan_cycle
scanned_cycle none = err no_rows
scanned_cycle (some c) = ok (scan_cycle c)

unfoldable pub get_test_cycle : Database → Context → String → Exec Ledger TestCycle
unfolding query scanned_cycle
get_test_cycle d ctx id =
    query d ctx (λ a. (scanned_cycle (find (λ (c : TestCycle). c.id) id a.cycles), a))

unfoldable pub delete_test_cycle : Database → Context → String → Exec Ledger (Unit {0})
unfolding query
delete_test_cycle d ctx id =
    query d ctx (modify λ a. record a { cycles = remove (λ (c : TestCycle). c.id) id a.cycles })

unfoldable pub is_past : Option ℕ → ℕ → Bool
unfolding written_le
is_past none now = false
is_past (some next) now = written_le next now

unfoldable pub is_scheduled : ℕ → TestCycle → Bool
unfolding is_past
is_scheduled now c = c.enabled && not (str_eq c.cron "") && is_past c.next_run_at now

abbrev pub is_unfinished : RunStatus → Bool
is_unfinished RunStatus.running = true
is_unfinished _ = false

unfoldable pub is_in_flight : List CycleRun → String → Bool
is_in_flight runs id = any (λ r. str_eq r.cycle_id id && is_unfinished r.status) runs

-- The WHERE clause of ListDueCycles
unfoldable pub is_due : ℕ → Archive → TestCycle → Bool
unfolding is_scheduled is_in_flight
is_due now a c = is_scheduled now c && not (is_in_flight a.cycle_runs c.id)

unfoldable pub list_due_cycles : Database → Context → ℕ → Exec Ledger (List TestCycle)
unfolding query is_due scan_cycle
list_due_cycles d ctx now = query d ctx (select λ a. map scan_cycle (keep (is_due now a) a.cycles))

unfoldable pub same_column : Platform → Platform → Bool
same_column Platform.android Platform.android = true
same_column Platform.windows Platform.windows = true
same_column Platform.linux Platform.linux = true
same_column Platform.macos Platform.macos = true
same_column Platform.unset Platform.unset = true
same_column _ _ = false

unfoldable pub list_cycles_for_build : Database → Context → Platform → Exec Ledger (List TestCycle)
unfolding query same_column scan_cycle
list_cycles_for_build d ctx p = query d ctx (
    select λ a.
      map scan_cycle (keep (λ c. c.enabled && c.on_new_build && same_column c.platform p) a.cycles))

unfoldable pub create_build : Database → Context → Build → Exec Ledger Build
unfolding query stamped
create_build d ctx b = stamped λ w.
    let b' = record b {
      id = d.new_id w.tick "build";
      created_at = w.now;
      status = if str_eq b.status "" then "uploaded" else b.status;
    } in
    query d ctx (λ a. (ok b', record a { builds = b' ∷ a.builds }))

unfoldable pub get_build : Database → Context → String → Exec Ledger Build
unfolding query
get_build d ctx id = query d ctx (λ a. (one_row (find (λ (b : Build). b.id) id a.builds), a))

unfoldable pub set_build : Database → Context → String → (Build → Build) → Exec Ledger (Unit {0})
unfolding query
set_build d ctx id change =
    query d ctx (modify λ a. record a { builds = update (λ (b : Build). b.id) id change a.builds })

unfoldable pub update_build_status :
    Database → Context → String → String → String → Exec Ledger (Unit {0})
unfolding set_build
update_build_status d ctx id status note =
    set_build d ctx id (λ b. record b { status = status; note = note })

unfoldable pub set_build_location :
    Database → Context → String → String → ℕ → String → Exec Ledger (Unit {0})
unfolding set_build
set_build_location d ctx id path size_bytes sha256 =
    set_build d ctx id (λ b. record b { path = path; size_bytes = size_bytes; sha256 = sha256 })
