-- ===== src/CaseStore/Stranded.antt =====
-- FailStrandedCycleRuns at startup, and the schedule of a cycle whose run was interrupted.
use open_cuttles.Go.Laws.{bind-runs, bind_ok}
use open_cuttles.Base.{
  keep, map, All, List, ℕ, String, Option-cases, ◌≡◌, ◌⊎◌, ◌∙◌, inl, inr, if◌then◌else◌, false,
  refl, sym, ap,
}
use open_cuttles.CaseStore.Runs.{
  fail_cycle_runs, fail_test_runs, fail_cycle_run, is_stranded, unfinished,
}
use open_cuttles.CaseStore.{modify, transaction, Ledger, run_query, Archive, query, undo}
use open_cuttles.CaseStore.Cycles.{is_scheduled, is_unfinished, is_due}
use open_cuttles.Domain.{TestRun, CycleRun}
use open_cuttles.Store.{db_failure, Context, Database}
use open_cuttles.Go.{Error, pure, Exec, Result, ◌>>=◌, ◌>>◌, ok, err}

pub query-cases :
    {A : Type 0} (d : Database) (ctx : Context) (body : Exec Archive A) (l : Ledger)
    → (((query d ctx body l).0 ≡ (body l.archive).0)
        × ((query d ctx body l).1.archive ≡ (body l.archive).1))
      ⊎ ((e : Error) × ((query d ctx body l).0 ≡ err e)
          × ((query d ctx body l).1.archive ≡ l.archive))
unfolding query run_query
query-cases d ctx body l = elim (Option-cases (db_failure d ctx l.world)) [
  | inl h ↦ inl (rw h refl, rw h refl)
  | inr (e, h) ↦ inr (e, rw h refl, rw h refl)
]

-- A statement that succeeds has done its work.
pub query_ok :
    {A : Type 0} (d : Database) (ctx : Context) (body : Exec Archive A) (l : Ledger) (a : A)
    → (query d ctx body l).0 ≡ ok a
    → ((body l.archive).0 ≡ ok a) × ((query d ctx body l).1.archive ≡ (body l.archive).1)
query_ok d ctx body l a h = elim (query-cases d ctx body l) [
  | inl (e, f) ↦ (sym e ∙ h, f)
  | inr (x, e, f) ↦ cc (e, h)
]

undo_ok :
    {A : Type 0} (before : Archive) (p : Result A × Ledger) (a : A)
    → (undo before p).0 ≡ ok a
    → (p.0 ≡ ok a) × ((undo before p).1 ≡ p.1)
unfolding undo
undo_ok before (ok b, l) a h = (h, refl)
undo_ok before (err e, l) a h = cc h

undo_err :
    {A : Type 0} (before : Archive) (p : Result A × Ledger) (e : Error)
    → (undo before p).0 ≡ err e
    → (undo before p).1.archive ≡ before
unfolding undo
undo_err before (ok b, l) e h = cc h
undo_err before (err x, l) e h = refl

abbrev archive_of : {A : Type 0} → Result A × Ledger → Archive
archive_of p = p.1.archive

module _ {A : Type 0} (d : Database) (ctx : Context) (body : Exec Ledger A) (l : Ledger) where
  commit : A → Exec Ledger A
  commit a = query d ctx (pure tt) >>= λ u. pure a

  -- A transaction that succeeds leaves what its body left, run on the tables as they were.
  pub transaction_ok :
      (a : A)
      → (transaction d ctx body l).0 ≡ ok a
      → (m : Ledger) × (m.archive ≡ l.archive)
        × ((body m).0 ≡ ok a)
        × ((transaction d ctx body l).1.archive ≡ (body m).1.archive)
  unfolding transaction commit
  transaction_ok a h =
      let all = query d ctx (pure tt) >>= λ u. body >>= commit in
      let (whole, kept) = undo_ok l.archive (all l) a h in
      let begun = query d ctx (pure tt) l in
      let (u, began, ran) = bind_ok (query d ctx (pure tt)) (λ u. body >>= commit) l a whole in
      let (c, did, committed) = bind_ok body commit begun.1 a ran in
      let (v, ended, same) =
        bind_ok (query d ctx (pure tt)) (λ u. pure c) (body begun.1).1 a committed in
      (
        begun.1,
        (query_ok d ctx (pure tt) l u began).1,
        did ∙ same,
        ap (λ (m : Ledger). m.archive) kept
            ∙ ap archive_of (bind-runs (query d ctx (pure tt)) (λ u. body >>= commit) l u began)
            ∙ ap archive_of (bind-runs body commit begun.1 c did)
            ∙ ap archive_of
                (bind-runs (query d ctx (pure tt)) (λ u. pure c) (body begun.1).1 v ended)
            ∙ (query_ok d ctx (pure tt) (body begun.1).1 v ended).1,
      )

  pub transaction_err :
      (e : Error)
      → (transaction d ctx body l).0 ≡ err e
      → (transaction d ctx body l).1.archive ≡ l.archive
  unfolding transaction
  transaction_err e h = undo_err l.archive _ e h

failed_runs : ℕ → List CycleRun → List CycleRun
failed_runs now runs = map (λ r. if is_unfinished r.status then fail_cycle_run now r else r) runs

-- What a sweep that succeeds comes to: `n` cycle runs were unfinished and none is now, no run of a
-- case is left unfinished in one that was, and the cycles that are due are those scheduled.
pub record Swept (before after : Archive) (n : ℕ) : Type 0 where
  pub counted : n ≡ unfinished before.cycle_runs
  pub all_finished : All (λ (r : CycleRun). is_unfinished r.status ≡ false) after.cycle_runs
  pub none_left : All (λ (r : TestRun). is_stranded before.cycle_runs r ≡ false) after.test_runs
  pub due_again :
      (now : ℕ) → keep (is_due now after) after.cycles ≡ keep (is_scheduled now) before.cycles

swept_archive : Database → Context → String → ℕ → Exec Ledger ℕ
swept_archive d ctx reason now =
    query d ctx (modify (fail_test_runs reason now))
    >> query d ctx (λ a. (ok (unfinished a.cycle_runs), fail_cycle_runs now a))
