-- ===== src/CaseStore/Appended.antt =====
-- AppendStep: the result of a step goes behind those that its run has, under the next index.
use open_cuttles.CaseStore.Stranded.{query_ok, query-cases}
use open_cuttles.CaseStore.{modify, Ledger, Archive}
use open_cuttles.CaseStore.Runs.{
  get_test_run, update_test_run, with_results, append_step, test_name_of, scan_test_run,
}
use open_cuttles.Go.{Result, Exec, Error, ok, err}
use open_cuttles.Go.Laws.{bind-rule, ok_injective}
use open_cuttles.Store.Rows.{find-update_ne, find-update_self, find-key, update, find}
use open_cuttles.Base.{
  Option, length, String, ◌≡◌, ◌≢◌, ◌⊎◌, ◌∙◌, inl, inr, [], ◌∷◌, ◌++◌, none, some, refl, sym, ap,
}
use open_cuttles.Domain.{TestRun, StepResult}
use open_cuttles.Store.{Context, Database}

abbrev pub row_of : String → Archive → Option TestRun
row_of id a = find (λ (r : TestRun). r.id) id a.test_runs

abbrev pub with_step : StepResult → TestRun → TestRun
with_step step r = record r { steps = r.steps ++ record step { index = length r.steps } ∷ [] }

-- The step is the last of the run with this id, and every other run reads as before.
pub record Appended (id : String) (step : StepResult) (before after : Archive) : Type 0 where
  pub row : TestRun
  pub is_row : row_of id before ≡ some row
  pub appended : row_of id after ≡ some (with_step step row)
  pub others : (other : String) → other ≢ id → row_of other after ≡ row_of other before

scanned :
    (a : Archive) (o : Option TestRun) (run : TestRun)
    → scan_test_run a o ≡ ok run
    → (row : TestRun) × (o ≡ some row)
      × (run ≡ record row {
        test_name = test_name_of a.tests row.test_id;
        cycle_run_id = "";
        case_id = "";
      })
unfolding scan_test_run
scanned a none run h = cc h
scanned a (some r) run h = (r, refl, sym (ok_injective h))

rows-Appended :
    (id : String) (step : StepResult) (a : Archive) (row run : TestRun)
    → row_of id a ≡ some row
    → run
      ≡ record row { test_name = test_name_of a.tests row.test_id; cycle_run_id = ""; case_id = "" }
    → let run' = with_step step run in
      Appended id step a (record a {
        test_runs = update (λ (r : TestRun). r.id) run'.id (with_results run') a.test_runs;
      })
rows-Appended id step a row run at_row read =
    let key = find-key (λ (r : TestRun). r.id) id a.test_runs row at_row in
    let same : run.id ≡ id = ap (λ (r : TestRun). r.id) read ∙ key in
    let run' = with_step step run in
    record {
      row = row;
      is_row = at_row;
      appended = rw same (
          find-update_self (λ (r : TestRun). r.id) (with_results run') (λ r. refl) id a.test_runs
          ∙ rw at_row (rw read refl));
      others = λ other ne.
          find-update_ne (λ (r : TestRun). r.id) (with_results run') (λ r. refl) run.id other
            a.test_runs (λ e. ne (e ∙ same));
    }

found_run :
    (d : Database) (ctx : Context) (id : String) (l : Ledger)
    → (get_test_run d ctx id l).1.archive ≡ l.archive
unfolding get_test_run
found_run d ctx id l =
    elim (query-cases d ctx
      (λ a. (scan_test_run a (find (λ (r : TestRun). r.id) id a.test_runs), a)) l) [
        | inl (e, f) ↦ f
        | inr (x, e, f) ↦ f
      ]

read_run :
    (d : Database) (ctx : Context) (id : String) (l : Ledger) (run : TestRun)
    → (get_test_run d ctx id l).0 ≡ ok run
    → scan_test_run l.archive (row_of id l.archive) ≡ ok run
unfolding get_test_run
read_run d ctx id l run h =
    (query_ok d ctx (λ a. (scan_test_run a (find (λ (r : TestRun). r.id) id a.test_runs), a)) l run
      h).0

module _ (d : Database) (ctx : Context) (id : String) (step : StepResult) (l : Ledger) where
  abbrev Outcome : Result (Unit {0}) → Ledger → Type 0
  Outcome r m =
      ((e : Error) × (r ≡ err e) × (m.archive ≡ l.archive))
      ⊎ ((r ≡ ok tt) × Appended id step l.archive m.archive)

  append_to : TestRun → Exec Ledger (Unit {0})
  append_to run = update_test_run d ctx (with_step step run)

  appended-Outcome :
      (run : TestRun)
      → (row : TestRun) × (row_of id l.archive ≡ some row)
        × (run ≡ record row {
          test_name = test_name_of l.archive.tests row.test_id;
          cycle_run_id = "";
          case_id = "";
        })
      → Outcome
          (append_to run (get_test_run d ctx id l).1).0
          (append_to run (get_test_run d ctx id l).1).1
  unfolding append_to update_test_run
  appended-Outcome run (row, at_row, read) =
      let m = (get_test_run d ctx id l).1 in
      let run' = with_step step run in
      let same = found_run d ctx id l in
      elim (query-cases d ctx
        (modify λ a. record a {
          test_runs = update (λ (r : TestRun). r.id) run'.id (with_results run') a.test_runs;
        })
        m) [
          | inr (e, failed, kept) ↦ inl (e, failed, kept ∙ same)
          | inl (done, wrote) ↦
              inr (done, rw (wrote, same) (rows-Appended id step l.archive row run at_row read))
        ]

  -- A step that is appended is the last of its run; where it is not, no table changes.
  pub append_step-Appended :
      ((e : Error) × ((append_step d ctx id step l).0 ≡ err e)
        × ((append_step d ctx id step l).1.archive ≡ l.archive))
      ⊎ (((append_step d ctx id step l).0 ≡ ok tt)
          × Appended id step l.archive (append_step d ctx id step l).1.archive)
  unfolding append_step append_to
  append_step-Appended =
      bind-rule Outcome (get_test_run d ctx id) append_to l
        (λ e h. inl (e, refl, found_run d ctx id l))
        (λ run h.
          appended-Outcome run
            (scanned l.archive (row_of id l.archive) run (read_run d ctx id l run h)))
