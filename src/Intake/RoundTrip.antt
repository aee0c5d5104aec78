-- ===== src/Intake/RoundTrip.antt =====
-- The layout of an export: what is laid out in rows is read back.
use open_cuttles.Base.{Option, length, ℕ, map, List, String, ◌+◌, [], ◌∷◌, ◌++◌}
use open_cuttles.Intake.Rows.{flush, Import}
use open_cuttles.Intake.Headers.{Columns, Column, map_headers}
use open_cuttles.Domain.{TestCase}
use open_cuttles.Intake.Layout.{standard_header, StepCells, CaseCells, to_step}

cols : Columns
unfolding map_headers
cols = (map_headers standard_header).0

step_cells : StepCells → Column → String
step_cells s Column.step_summary = s.action
step_cells s Column.test_data = s.test_data
step_cells s Column.expected = s.expected
step_cells s _ = ""

case_cells : CaseCells → StepCells → Column → String
case_cells c s Column.summary = c.summary
case_cells c s Column.description = c.description
case_cells c s Column.precondition = c.precondition
case_cells c s Column.priority = c.priority
case_cells c s Column.status = c.status
case_cells c s Column.components = c.components
case_cells c s Column.labels = c.labels
case_cells c s Column.folder = c.folder
case_cells c s Column.external_key = c.key
case_cells c s Column.step_summary = s.action
case_cells c s Column.test_data = s.test_data
case_cells c s Column.expected = s.expected

abbrev with_steps : List StepCells → TestCase → TestCase
with_steps steps c = record c { steps = c.steps ++ map to_step steps }

abbrev counted : ℕ → Import → Import
counted n r = record r { steps_parsed = r.steps_parsed + n }

pub total_steps : List CaseCells → ℕ
total_steps [] = 0
total_steps (k ∷ rest) = length k.steps + total_steps rest

abbrev with_cases : List TestCase → ℕ → Import → Import
with_cases cs n r = record r { cases = r.cases ++ cs; steps_parsed = r.steps_parsed + n }

abbrev flushed : Option TestCase × Import → Import
flushed p = flush p.0 p.1
