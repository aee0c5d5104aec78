-- ===== src/CaseStore.antt =====
-- backend/internal/store/cases.go and tests.go: test cases, cycles, their runs and builds. A method
-- is one or more database calls, which fail as those of Store do; a transaction that fails leaves
-- the tables as they were.
pub mod Cases
pub mod Cycles
pub mod Runs
pub mod Stranded
pub mod Due
pub mod Appended
use open_cuttles.Domain.{Build, TestRun, CycleRun, TestCycle, TestCase}
use open_cuttles.Store.{advance, db_failure, Context, World, Database}
use open_cuttles.Go.{pure, Error, Result, Exec, ◌>>=◌, ◌>>◌, ok, err}
use open_cuttles.Base.{
  ◌/◌, leb, ◌%◌, Bool, String, List, Option, ℕ, ◌+◌, ◌-◌, ◌*◌, ◌≡◌, ◌≢◌, ◌≤◌, ◌<◌, ◌&&◌, ◌||◌, ◌⊎◌,
  ◌∙◌, inl, inr, [], ◌∷◌, ◌++◌, if◌then◌else◌, ◌==◌, zero, suc, true, false, none, some, refl, sym,
  ap, arith,
}

-- A test of the scripted runner.
pub record ScriptedTest : Type 0 where
  pub id : String
  pub name : String
  pub steps : List String
  pub created_at : ℕ

pub record Archive : Type 0 where
  pub cases : List TestCase
  pub folders : List String
  pub cycles : List TestCycle
  pub cycle_runs : List CycleRun
  pub tests : List ScriptedTest
  pub test_runs : List TestRun
  pub builds : List Build

-- The tables with the database, the clock and the commands of World.
pub record Ledger : Type 0 where
  pub world : World
  pub archive : Archive

unfoldable pub run_query : {A : Type 0} → Option Error → Exec Archive A → Exec Archive A
run_query (some e) body a = (err e, a)
run_query none body a = body a

unfoldable pub query : {A : Type 0} → Database → Context → Exec Archive A → Exec Ledger A
unfolding run_query
query d ctx body l =
    let (r, a) = run_query (db_failure d ctx l.world) body l.archive in
    (r, record { world = advance d l.world; archive = a })

-- BeginTx, the statements, Commit; the deferred Rollback where one of them fails.
unfoldable pub undo : {A : Type 0} → Archive → Result A × Ledger → Result A × Ledger
undo before (err e, l) = (err e, record l { archive = before })
undo before (ok a, l) = (ok a, l)

unfoldable pub transaction : {A : Type 0} → Database → Context → Exec Ledger A → Exec Ledger A
unfolding query undo
transaction d ctx body l =
    undo l.archive ((do query d ctx (pure tt); result ← body; query d ctx (pure tt); pure result) l)

-- A statement that reads only, and one that writes only.
abbrev pub select : {A : Type 0} → (Archive → A) → Exec Archive A
select f a = (ok (f a), a)

abbrev pub modify : (Archive → Archive) → Exec Archive (Unit {0})
modify f a = (ok tt, f a)

-- time.Now and newID, before the statement
unfoldable pub stamped : {A : Type 0} → (World → Exec Ledger A) → Exec Ledger A
stamped f l = f l.world l
