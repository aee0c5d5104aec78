-- ===== src/CaseStore/Cases.antt =====
-- backend/internal/store/cases.go and tests.go: test cases, their folders, and scripted tests.
use open_cuttles.Base.{
  map, not, keep, Bool, any, str_eq, ℕ, List, String, [], ◌∷◌, ◌++◌, if◌then◌else◌, suc,
}
use open_cuttles.Go.{message, raise, pure, Exec, ◌>>=◌, ◌>>◌, ok}
use open_cuttles.Store.Rows.{update, remove, find}
use open_cuttles.Go.Text.{is_empty}
use open_cuttles.Store.{one_row, Context, Database}
use open_cuttles.CaseStore.{
  modify, select, ScriptedTest, Ledger, Archive, stamped, transaction, query,
}
use open_cuttles.Domain.{TestStep, TestCase}
use open_cuttles.Go.Strings.{trim_slashes, trim_space}

unfoldable pub reindex_from : ℕ → List TestStep → List TestStep
reindex_from i [] = []
reindex_from i (s ∷ rest) = record s { index = i } ∷ reindex_from (suc i) rest

-- reindexSteps
unfoldable pub reindex_steps : List TestStep → List TestStep
unfolding reindex_from
reindex_steps steps = reindex_from 0 steps

unfoldable pub is_blank : String → Bool
unfolding trim_space
is_blank s = str_eq (trim_space s) ""

unfoldable pub new_case : String → ℕ → TestCase → TestCase
unfolding reindex_steps
new_case id now c = record c {
  id = id;
  created_at = now;
  updated_at = now;
  steps = reindex_steps c.steps;
}

unfoldable pub insert_case : TestCase → Archive → Archive
insert_case c a = record a { cases = c ∷ a.cases }

unfoldable pub create_test_case : Database → Context → TestCase → Exec Ledger TestCase
unfolding is_blank new_case stamped insert_case query
create_test_case d ctx c =
    if is_blank c.summary
    then raise (message "a test case needs a summary")
    else stamped λ w.
      let c' = new_case (d.new_id w.tick "case") w.now c in
      query d ctx (λ a. (ok c', insert_case c' a))

-- The cases with a summary, each with an id that is drawn before its statement.
unfoldable pub insert_cases : Database → Context → ℕ → ℕ → List TestCase → Exec Ledger ℕ
unfolding is_blank new_case stamped insert_case query
insert_cases d ctx now created [] = pure created
insert_cases d ctx now created (c ∷ rest) =
    let insert =
      stamped λ w. query d ctx (modify (insert_case (new_case (d.new_id w.tick "case") now c))) in
    let later = insert >>= λ u. insert_cases d ctx now (suc created) rest in
    let skipped = insert_cases d ctx now created rest in
    if is_blank c.summary then skipped else later

unfoldable pub bulk_create_cases : Database → Context → List TestCase → Exec Ledger ℕ
unfolding transaction stamped insert_cases
bulk_create_cases d ctx cases = transaction d ctx (stamped λ w. insert_cases d ctx w.now 0 cases)

unfoldable pub get_test_case : Database → Context → String → Exec Ledger TestCase
unfolding query
get_test_case d ctx id = query d ctx (λ a. (one_row (find (λ (c : TestCase). c.id) id a.cases), a))

abbrev pub with_content : TestCase → ℕ → TestCase → TestCase
with_content c now row = record c { id = row.id; created_at = row.created_at; updated_at = now }

unfoldable pub update_test_case : Database → Context → TestCase → Exec Ledger (Unit {0})
unfolding query stamped reindex_steps
update_test_case d ctx c = stamped λ w.
    let c' = record c { steps = reindex_steps c.steps } in
    query d ctx (
      modify λ a. record a {
        cases = update (λ (r : TestCase). r.id) c.id (with_content c' w.now) a.cases;
      })

unfoldable pub delete_test_case : Database → Context → String → Exec Ledger (Unit {0})
unfolding query
delete_test_case d ctx id =
    query d ctx (modify λ a. record a { cases = remove (λ (r : TestCase). r.id) id a.cases })

-- strings.Trim(strings.TrimSpace(path), "/")
unfoldable pub folder_name : String → String
unfolding trim_space trim_slashes
folder_name path = trim_slashes (trim_space path)

unfoldable pub create_case_folder : Database → Context → String → Exec Ledger (Unit {0})
unfolding query folder_name
create_case_folder d ctx path =
    if str_eq (folder_name path) ""
    then raise (message "folder path is required")
    else query d ctx (
        modify λ a.
          if any (str_eq (folder_name path)) a.folders
          then a
          else record a { folders = folder_name path ∷ a.folders })

unfoldable pub delete_case_folder : Database → Context → String → Exec Ledger (Unit {0})
unfolding query folder_name
delete_case_folder d ctx path =
    query d ctx
      (modify λ a. record a { folders = keep (λ f. not (str_eq f (folder_name path))) a.folders })

-- The union of the folders that were created and those that cases are in, before ORDER BY.
unfoldable pub distinct : List String → List String
distinct [] = []
distinct (f ∷ rest) =
    let others = distinct rest in if any (str_eq f) others then others else f ∷ others

unfoldable pub list_case_folders : Database → Context → Exec Ledger (List String)
unfolding query distinct
list_case_folders d ctx = query d ctx (
    select
      λ a. distinct (a.folders ++ keep (λ f. not (str_eq f "")) (map (λ c. c.folder_path) a.cases)))

unfoldable pub trimmed_steps : List String → List String
unfolding trim_space
trimmed_steps [] = []
trimmed_steps (s ∷ rest) =
    if str_eq (trim_space s) "" then trimmed_steps rest else trim_space s ∷ trimmed_steps rest

unfoldable pub create_test : Database → Context → String → List String → Exec Ledger ScriptedTest
unfolding query stamped trimmed_steps trim_space
create_test d ctx name steps =
    if is_empty (trimmed_steps steps)
    then raise (message "a test needs at least one step")
    else stamped λ w.
      let t : ScriptedTest = record {
        id = d.new_id w.tick "test";
        name = trim_space name;
        steps = trimmed_steps steps;
        created_at = w.now;
      } in
      query d ctx (λ a. (ok t, record a { tests = t ∷ a.tests }))

unfoldable pub get_test : Database → Context → String → Exec Ledger ScriptedTest
unfolding query
get_test d ctx id = query d ctx (λ a. (one_row (find (λ (t : ScriptedTest). t.id) id a.tests), a))

unfoldable pub delete_test : Database → Context → String → Exec Ledger (Unit {0})
unfolding query
delete_test d ctx id = do
  query d ctx
      (modify λ a. record a { test_runs = keep (λ r. not (str_eq r.test_id id)) a.test_runs })
  query d ctx (modify λ a. record a { tests = remove (λ (t : ScriptedTest). t.id) id a.tests })
