-- ===== src/Intake/Rows.antt =====
-- backend/internal/qmetry/import.go: parseRows, a case to a row and to each row after it that has
-- only a step. The readers of CSV and of XLSX, packages outside the repository, give the rows.
use open_cuttles.Base.{
  str_eq, all, not, length, ℕ, Bool, keep, List, String, Option, map, ◌+◌, ◌≡◌, ◌||◌, [], ◌∷◌, ◌++◌,
  if◌then◌else◌, ◌==◌, zero, suc, none, some, refl,
}
use open_cuttles.Domain.{TestCase, TestStep}
use open_cuttles.Go.Strings.{trim_slashes, trim_space}
use open_cuttles.Intake.Headers.{column_at, Column, Columns, map_headers}
use open_cuttles.CaseStore.Cases.{reindex_steps}
use Prim.Native.String.{◌++◌ as concat}
use Prim.Native.Char.{Char, code}

-- qmetry.Result
pub record Import : Type 0 where
  pub cases : List TestCase
  pub cases_parsed : ℕ
  pub steps_parsed : ℕ
  pub rows_skipped : ℕ
  pub warnings : List String

cell_at : List String → ℕ → String
unfolding trim_space
cell_at [] i = ""
cell_at (s ∷ rest) zero = trim_space s
cell_at (s ∷ rest) (suc i) = cell_at rest i

unfoldable pub cell : Columns → List String → Column → String
unfolding column_at cell_at
cell cols row c = elim (column_at c cols) [ none ↦ "" | some i ↦ cell_at row i ]

unfoldable pub is_blank_row : List String → Bool
unfolding trim_space
is_blank_row row = all (λ c. str_eq (trim_space c) "") row

on_first : Char → List String → List String
on_first c [] = String.◌∷◌ c "" ∷ []
on_first c (p ∷ rest) = String.◌∷◌ c p ∷ rest

-- strings.FieldsFunc at a comma or a semicolon, with the empty parts
split_parts : String → List String
unfolding on_first
split_parts String.[] = "" ∷ []
split_parts (String.◌∷◌ c s) =
    let rest = split_parts s in
    if (code c == b',') || (code c == b';') then "" ∷ rest else on_first c rest

unfoldable pub split_list : String → List String
unfolding split_parts trim_space
split_list s = keep (λ p. not (str_eq p "")) (map trim_space (split_parts s))

before_comma : String → String
before_comma String.[] = String.[]
before_comma (String.◌∷◌ c s) =
    let rest = before_comma s in if code c == b',' then String.[] else String.◌∷◌ c rest

-- A backslash becomes the slash that is given.
slashed : Char → String → String
slashed slash String.[] = String.[]
slashed slash (String.◌∷◌ c s) = String.◌∷◌ (if code c == 92 then slash else c) (slashed slash s)

unfoldable pub normalize_folder : String → String
unfolding before_comma slashed trim_space trim_slashes
normalize_folder s = trim_slashes (trim_space (slashed "/" (before_comma s)))

unfoldable pub new_case_of : (Column → String) → TestCase
unfolding split_list normalize_folder
new_case_of get = record {
  id = "";
  summary = get Column.summary;
  description = get Column.description;
  precondition = get Column.precondition;
  priority = get Column.priority;
  status = get Column.status;
  labels = split_list (get Column.labels);
  components = split_list (get Column.components);
  folder_path = normalize_folder (get Column.folder);
  steps = [];
  external_key = get Column.external_key;
  created_at = 0;
  updated_at = 0;
}

unfoldable pub flush : Option TestCase → Import → Import
unfolding reindex_steps
flush none r = r
flush (some c) r = record r { cases = r.cases ++ record c { steps = reindex_steps c.steps } ∷ [] }

unfoldable pub has_step : (Column → String) → Bool
has_step get =
    not (str_eq (get Column.step_summary) "")
    || not (str_eq (get Column.test_data) "")
    || not (str_eq (get Column.expected) "")

abbrev pub step_of : (Column → String) → TestStep
step_of get = record {
  index = 0;
  action = get Column.step_summary;
  test_data = get Column.test_data;
  expected = get Column.expected;
}

unfoldable pub add_step : TestStep → Option TestCase × Import → Option TestCase × Import
add_step step (none, r) = (none, record r { rows_skipped = r.rows_skipped + 1 })
add_step step (some c, r) = (
  some (record c { steps = c.steps ++ step ∷ [] }),
  record r { steps_parsed = r.steps_parsed + 1 },
)

-- The case that a row starts, and the step that it has.
unfoldable pub read_row : (Column → String) → Option TestCase × Import → Option TestCase × Import
unfolding flush new_case_of has_step add_step
read_row get (cur, r) =
    let starts = not (str_eq (get Column.summary) "") in
    let begun = if starts then (some (new_case_of get), flush cur r) else (cur, r) in
    if has_step get
    then add_step (step_of get) begun
    else if starts
    then begun
    else (begun.0, record begun.1 { rows_skipped = begun.1.rows_skipped + 1 })

unfoldable pub read_rows :
    Columns → List (List String) → Option TestCase × Import → Option TestCase × Import
unfolding is_blank_row read_row cell
read_rows cols [] p = p
read_rows cols (row ∷ rest) p =
    read_rows cols rest (if is_blank_row row then p else read_row (cell cols row) p)

abbrev pub nothing_yet : List String → Import
nothing_yet warnings = record {
  cases = [];
  cases_parsed = 0;
  steps_parsed = 0;
  rows_skipped = 0;
  warnings = warnings;
}

unfoldable pub finish_rows : Option TestCase × Import → Import
unfolding flush
finish_rows (cur, r) = let done = flush cur r in record done { cases_parsed = length done.cases }

unfoldable pub parse_rows : List (List String) → Import
unfolding map_headers read_rows finish_rows column_at
parse_rows [] = nothing_yet ("file is empty" ∷ [])
parse_rows (header ∷ rows) =
    let (cols, unmatched) = map_headers header in
    let warnings = map (λ u. concat "unmapped column: " u) unmatched in
    elim (column_at Column.summary cols) [
      | none ↦ nothing_yet (warnings ++ "no Summary/Title column found — cannot import" ∷ [])
      | some i ↦ finish_rows (read_rows cols rows (none, nothing_yet warnings))
    ]

abbrev outline : TestCase → String × List String × ℕ
outline c = (c.summary, c.labels, length c.steps)

imports :
    map outline
      (parse_rows (
        ("Summary" ∷ "Labels" ∷ "Step" ∷ [])
        ∷ ("log in" ∷ "smoke; auth" ∷ "open" ∷ [])
        ∷ ("" ∷ "" ∷ "type" ∷ [])
        ∷ [])).cases
    ≡ ("log in", "smoke" ∷ "auth" ∷ [], 2) ∷ []
unfolding parse_rows
imports = refl
