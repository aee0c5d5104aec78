-- ===== src/Intake/Layout.antt =====
-- The layout of an export: what is laid out in rows is read back.
use open_cuttles.Intake.Rows.{normalize_folder, split_list}
use open_cuttles.Base.{map, List, String, All, ◌≡◌, ◌≢◌, ◌⊎◌, [], ◌∷◌, ◌++◌}
use open_cuttles.Go.Strings.{trim_space}
use open_cuttles.CaseStore.Cases.{reindex_steps}
use open_cuttles.Domain.{TestStep, TestCase}

abbrev pub standard_header : List String
standard_header =
    "Summary" ∷ "Description" ∷ "Precondition" ∷ "Priority" ∷ "Status" ∷ "Components" ∷ "Labels"
    ∷ "Folder" ∷ "Key" ∷ "Step Summary" ∷ "Test Data" ∷ "Expected Result" ∷ []

pub record StepCells : Type 0 where
  pub action : String
  pub test_data : String
  pub expected : String

pub record CaseCells : Type 0 where
  pub summary : String
  pub description : String
  pub precondition : String
  pub priority : String
  pub status : String
  pub components : String
  pub labels : String
  pub folder : String
  pub key : String
  pub steps : List StepCells

abbrev pub step_row : StepCells → List String
step_row s = "" ∷ "" ∷ "" ∷ "" ∷ "" ∷ "" ∷ "" ∷ "" ∷ "" ∷ s.action ∷ s.test_data ∷ s.expected ∷ []

abbrev pub case_row : CaseCells → StepCells → List String
case_row c s =
    c.summary ∷ c.description ∷ c.precondition ∷ c.priority ∷ c.status ∷ c.components ∷ c.labels
    ∷ c.folder ∷ c.key ∷ s.action ∷ s.test_data ∷ s.expected ∷ []

abbrev pub no_step : StepCells
no_step = record { action = ""; test_data = ""; expected = "" }

-- A case with its first step in one row, and each later step in a row of its own.
unfoldable pub rows_with : CaseCells → List StepCells → List (List String)
rows_with c [] = case_row c no_step ∷ []
rows_with c (s ∷ rest) = case_row c s ∷ map step_row rest

unfoldable pub rows_of : List CaseCells → List (List String)
unfolding rows_with
rows_of [] = []
rows_of (c ∷ rest) = rows_with c c.steps ++ rows_of rest

abbrev pub IsTrimmed : String → Type 0
IsTrimmed s = trim_space s ≡ s

pub record IsTidyStep (s : StepCells) : Type 0 where
  pub action_trimmed : IsTrimmed s.action
  pub test_data_trimmed : IsTrimmed s.test_data
  pub expected_trimmed : IsTrimmed s.expected
  pub has_text : (s.action ≢ "") ⊎ (s.test_data ≢ "") ⊎ (s.expected ≢ "")

pub record IsTidy (c : CaseCells) : Type 0 where
  pub has_summary : c.summary ≢ ""
  pub summary_trimmed : IsTrimmed c.summary
  pub description_trimmed : IsTrimmed c.description
  pub precondition_trimmed : IsTrimmed c.precondition
  pub priority_trimmed : IsTrimmed c.priority
  pub status_trimmed : IsTrimmed c.status
  pub components_trimmed : IsTrimmed c.components
  pub labels_trimmed : IsTrimmed c.labels
  pub folder_trimmed : IsTrimmed c.folder
  pub key_trimmed : IsTrimmed c.key
  pub steps_tidy : All IsTidyStep c.steps

abbrev pub to_step : StepCells → TestStep
to_step s = record { index = 0; action = s.action; test_data = s.test_data; expected = s.expected }

-- The case before its steps are numbered.
abbrev pub laid_out : CaseCells → List StepCells → TestCase
laid_out c steps = record {
  id = "";
  summary = c.summary;
  description = c.description;
  precondition = c.precondition;
  priority = c.priority;
  status = c.status;
  labels = split_list c.labels;
  components = split_list c.components;
  folder_path = normalize_folder c.folder;
  steps = map to_step steps;
  external_key = c.key;
  created_at = 0;
  updated_at = 0;
}

unfoldable pub imported : CaseCells → TestCase
imported c = record (laid_out c c.steps) { steps = reindex_steps (map to_step c.steps) }
