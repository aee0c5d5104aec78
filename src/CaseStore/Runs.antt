-- ===== src/CaseStore/Runs.antt =====
-- backend/internal/store/cases.go and tests.go: the runs of cycles, of their cases and of scripted
-- tests. What a LEFT JOIN adds, the name of a cycle or of a test, is looked up in its table.
use open_cuttles.Base.{
  drop, take, not, str_eq, any, ltb, keep, Option, Bool, map, length, List, String, ℕ, ◌&&◌, ◌||◌,
  [], ◌∷◌, ◌++◌, if◌then◌else◌, ◌==◌, false, none, some,
}
use open_cuttles.Store.Rows.{remove, update, find}
use open_cuttles.CaseStore.{
  modify, select, Ledger, ScriptedTest, query, Archive, transaction, stamped,
}
use open_cuttles.Go.{pure, no_rows, Exec, Result, ◌>>=◌, ◌>>◌, ok, err}
use open_cuttles.Base.Int.{negsuc, pos, ℤ}
use open_cuttles.Domain.{StepResult, TestCycle, RunStatus, CycleRun, TestRun}
use open_cuttles.CaseStore.Cycles.{is_unfinished}
use open_cuttles.Store.{Context, Database}

unfoldable pub cycle_name_of : List TestCycle → String → String
unfolding find
cycle_name_of cycles id = elim (find (λ (c : TestCycle). c.id) id cycles) [
  | none ↦ ""
  | some c ↦ c.name
]

unfoldable pub create_cycle_run : Database → Context → CycleRun → Exec Ledger CycleRun
unfolding query stamped
create_cycle_run d ctx r = stamped λ w.
    let r' = record r {
      id = d.new_id w.tick "cyc";
      status = RunStatus.running;
      started_at = w.now;
    } in
    query d ctx
      (λ a. (ok r', record a { cycle_runs = record r' { finished_at = none } ∷ a.cycle_runs }))

abbrev pub with_progress : CycleRun → CycleRun → CycleRun
with_progress r row = record row {
  status = r.status;
  totals = r.totals;
  instance_id = r.instance_id;
  build_id = r.build_id;
  finished_at = r.finished_at;
}

unfoldable pub update_cycle_run : Database → Context → CycleRun → Exec Ledger (Unit {0})
unfolding query
update_cycle_run d ctx r = query d ctx (
    modify λ a. record a {
      cycle_runs = update (λ (row : CycleRun). row.id) r.id (with_progress r) a.cycle_runs;
    })

unfoldable pub joined_run : Archive → Option CycleRun → Result CycleRun
unfolding cycle_name_of
joined_run a none = err no_rows
joined_run a (some r) = ok (record r { cycle_name = cycle_name_of a.cycles r.cycle_id })

unfoldable pub get_cycle_run : Database → Context → String → Exec Ledger CycleRun
unfolding query joined_run
get_cycle_run d ctx id =
    query d ctx (λ a. (joined_run a (find (λ (r : CycleRun). r.id) id a.cycle_runs), a))

unfoldable pub count_cycle_runs : Database → Context → Exec Ledger ℕ
unfolding query
count_cycle_runs d ctx = query d ctx (select λ a. length a.cycle_runs)

abbrev pub page_limit : ℤ → ℕ
page_limit (pos n) = if n == 0 || ltb 500 n then 50 else n
page_limit (negsuc n) = 50

abbrev pub page_offset : ℤ → ℕ
page_offset (pos n) = n
page_offset (negsuc n) = 0

-- `newest_first` is ORDER BY started_at DESC.
module _ (newest_first : List CycleRun → List CycleRun) where
  unfoldable pub list_runs : Database → Context → ℕ → ℕ → Exec Ledger (List CycleRun)
  unfolding query cycle_name_of
  list_runs d ctx limit offset = query d ctx (
      select λ a.
        map (λ (r : CycleRun). record r { cycle_name = cycle_name_of a.cycles r.cycle_id })
          (take limit (drop offset (newest_first a.cycle_runs))))

  unfoldable pub list_cycle_runs_page : Database → Context → ℤ → ℤ → Exec Ledger (List CycleRun × ℕ)
  unfolding count_cycle_runs list_runs
  list_cycle_runs_page d ctx limit offset = do
    total ← count_cycle_runs d ctx
    runs ← list_runs d ctx (page_limit limit) (page_offset offset)
    pure (runs, total)

  unfoldable pub list_cycle_runs : Database → Context → Exec Ledger (List CycleRun)
  unfolding list_cycle_runs_page
  list_cycle_runs d ctx = do page ← list_cycle_runs_page d ctx (pos 200) (pos 0); pure page.0

abbrev pub fail_test_run : String → ℕ → TestRun → TestRun
fail_test_run reason now r = record r {
  status = RunStatus.failed;
  passed = false;
  error = reason;
  finished_at = some now;
}

abbrev pub fail_cycle_run : ℕ → CycleRun → CycleRun
fail_cycle_run now r = record r { status = RunStatus.failed; finished_at = some now }

unfoldable pub is_stranded : List CycleRun → TestRun → Bool
is_stranded runs r =
    is_unfinished r.status && any (λ c. is_unfinished c.status && str_eq c.id r.cycle_run_id) runs

unfoldable pub fail_test_runs : String → ℕ → Archive → Archive
unfolding is_stranded
fail_test_runs reason now a = record a {
  test_runs =
      map (λ r. if is_stranded a.cycle_runs r then fail_test_run reason now r else r) a.test_runs;
}

unfoldable pub fail_cycle_runs : ℕ → Archive → Archive
fail_cycle_runs now a = record a {
  cycle_runs = map (λ r. if is_unfinished r.status then fail_cycle_run now r else r) a.cycle_runs;
}

-- How many rows a statement over the unfinished cycle runs changes.
unfoldable pub unfinished : List CycleRun → ℕ
unfinished runs = length (keep (λ r. is_unfinished r.status) runs)

unfoldable pub fail_stranded_cycle_runs : Database → Context → String → Exec Ledger ℕ
unfolding transaction stamped query fail_test_runs fail_cycle_runs unfinished
fail_stranded_cycle_runs d ctx reason = stamped λ w. transaction d ctx (
    query d ctx (modify (fail_test_runs reason w.now))
    >> query d ctx (λ a. (ok (unfinished a.cycle_runs), fail_cycle_runs w.now a)))

unfoldable pub delete_cycle_run : Database → Context → String → Exec Ledger (Unit {0})
unfolding query
delete_cycle_run d ctx id = do
  query d ctx
      (modify λ a. record a { test_runs = keep (λ r. not (str_eq r.cycle_run_id id)) a.test_runs })
  query d ctx
      (modify λ a. record a { cycle_runs = remove (λ (r : CycleRun). r.id) id a.cycle_runs })

abbrev pub new_test_run : String → String → String → ℕ → TestRun
new_test_run id test_id instance_id now = record {
  id = id;
  test_id = test_id;
  test_name = "";
  instance_id = instance_id;
  status = RunStatus.running;
  passed = false;
  steps = [];
  video = "";
  error = "";
  started_at = now;
  finished_at = none;
  cycle_run_id = "";
  case_id = "";
}

unfoldable pub insert_test_run : Database → Context → TestRun → Exec Ledger TestRun
unfolding query
insert_test_run d ctx r = query d ctx (λ a. (ok r, record a { test_runs = r ∷ a.test_runs }))

unfoldable pub create_test_run : Database → Context → String → String → Exec Ledger TestRun
unfolding insert_test_run stamped
create_test_run d ctx test_id instance_id =
    stamped
      λ w. insert_test_run d ctx (new_test_run (d.new_id w.tick "run") test_id instance_id w.now)

unfoldable pub create_case_run : Database → Context → String → String → String → Exec Ledger TestRun
unfolding insert_test_run stamped
create_case_run d ctx cycle_run_id case_id instance_id = stamped λ w.
    insert_test_run d ctx (record (new_test_run (d.new_id w.tick "run") "" instance_id w.now) {
      cycle_run_id = cycle_run_id;
      case_id = case_id;
    })

abbrev pub with_results : TestRun → TestRun → TestRun
with_results r row = record row {
  status = r.status;
  passed = r.passed;
  steps = r.steps;
  video = r.video;
  error = r.error;
  finished_at = r.finished_at;
}

unfoldable pub update_test_run : Database → Context → TestRun → Exec Ledger (Unit {0})
unfolding query
update_test_run d ctx r = query d ctx (
    modify λ a. record a {
      test_runs = update (λ (row : TestRun). row.id) r.id (with_results r) a.test_runs;
    })

unfoldable pub test_name_of : List ScriptedTest → String → String
unfolding find
test_name_of tests id = elim (find (λ (t : ScriptedTest). t.id) id tests) [
  | none ↦ ""
  | some t ↦ t.name
]

-- scanTestRun: the columns that belong to a cycle are not asked for.
unfoldable pub scan_test_run : Archive → Option TestRun → Result TestRun
unfolding test_name_of
scan_test_run a none = err no_rows
scan_test_run a (some r) =
    ok (record r { test_name = test_name_of a.tests r.test_id; cycle_run_id = ""; case_id = "" })

unfoldable pub get_test_run : Database → Context → String → Exec Ledger TestRun
unfolding query scan_test_run
get_test_run d ctx id =
    query d ctx (λ a. (scan_test_run a (find (λ (r : TestRun). r.id) id a.test_runs), a))

unfoldable pub append_step : Database → Context → String → StepResult → Exec Ledger (Unit {0})
unfolding get_test_run update_test_run
append_step d ctx run_id step = do
  run ← get_test_run d ctx run_id
  update_test_run d ctx
      (record run { steps = run.steps ++ record step { index = length run.steps } ∷ [] })
