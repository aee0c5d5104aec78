-- ===== src/Examples/Sheets.antt =====
-- The theorems about imported sheets and drafted cases, applied.
use open_cuttles.Base.{String, length, List, All, ◌+◌, ◌≡◌, ◌≤◌, [], ◌∷◌, some, refl}
use open_cuttles.Go.Strings.{codes}
use open_cuttles.Intake.Layout.{StepCells, CaseCells}
use open_cuttles.Intake.Counted.{parse_rows-accounts, step_count, nonblank_rows, HasSummary}
use open_cuttles.Intake.Headers.{column_at, map_headers}
use open_cuttles.Intake.Rows.{parse_rows}
use open_cuttles.Intake.Drafts.{Proposal, drafts_from}
use open_cuttles.Intake.Reviewable.{drafts_from-IsReviewable, IsReviewable, proposals_in}

abbrev press : StepCells
press = record { action = "press Log in"; test_data = "user: ada"; expected = "the home screen" }

abbrev leave : StepCells
leave = record { action = "press Log out"; test_data = ""; expected = "" }

abbrev session_case : CaseCells
session_case = record {
  summary = "a session";
  description = "";
  precondition = "";
  priority = "high";
  status = "";
  components = "web, app";
  labels = "";
  folder = "/auth/";
  key = "QA-1";
  steps = press ∷ leave ∷ [];
}

abbrev header : List String
header = "Test Step" ∷ "Title" ∷ []

-- A step before any case, a case with a step, and a row with nothing of use.
abbrev rows : List (List String)
rows = ("press" ∷ []) ∷ ("press" ∷ "a case" ∷ []) ∷ ("" ∷ "" ∷ "?" ∷ []) ∷ []

parse_rows-accounts_example :
    let r = parse_rows (header ∷ rows) in
    (r.cases_parsed ≡ length r.cases)
    × (r.steps_parsed ≡ step_count r.cases)
    × All HasSummary r.cases
    × (nonblank_rows rows ≤ r.rows_skipped + r.cases_parsed + r.steps_parsed)
unfolding column_at map_headers
parse_rows-accounts_example = parse_rows-accounts header rows 1 refl

-- One proposal can be used, the other has no step.
abbrev proposals : List Proposal
proposals =
    record {
      summary = "a session";
      description = "";
      precondition = "";
      priority = "P0";
      labels = [];
      steps = record { action = "press Log in"; test_data = ""; expected = "" } ∷ [];
    }
    ∷ record {
      summary = "an outline";
      description = "";
      precondition = "";
      priority = "";
      labels = [];
      steps = [];
    }
    ∷ []

drafts_from-IsReviewable_example :
    let r = (drafts_from (λ s. some proposals) [] "auth" (codes "{}")).0 in
    All (IsReviewable "auth") r.cases
    × (length r.cases + r.dropped ≡ length (proposals_in (λ s. some proposals) (codes "{}")))
drafts_from-IsReviewable_example =
    drafts_from-IsReviewable (λ s. some proposals) [] "auth" (codes "{}")
