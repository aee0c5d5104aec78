-- ===== src/Intake/Headers.antt =====
-- backend/internal/qmetry/import.go: which column of an export holds which part of a case.
use open_cuttles.Base.{
  any, leb, not, str_eq, ℕ, List, Option, String, Bool, ◌≡◌, ◌&&◌, ◌||◌, [], ◌∷◌, ◌++◌,
  if◌then◌else◌, ◌==◌, suc, true, false, none, some, refl,
}
use open_cuttles.Go.Strings.{lower_case, trim_space}
use Prim.Native.Char.{code}

pub data Column : Type 0 where
  summary description precondition priority status components labels folder external_key
        step_summary test_data expected :
      Column

abbrev pub column_code : Column → ℕ
column_code Column.summary = 0
column_code Column.description = 1
column_code Column.precondition = 2
column_code Column.priority = 3
column_code Column.status = 4
column_code Column.components = 5
column_code Column.labels = 6
column_code Column.folder = 7
column_code Column.external_key = 8
column_code Column.step_summary = 9
column_code Column.test_data = 10
column_code Column.expected = 11

abbrev pub header_aliases : List (Column × List String)
header_aliases =
    (
      Column.summary,
      "summary" ∷ "title" ∷ "name" ∷ "testcasesummary" ∷ "testcasename" ∷ "testcase" ∷ [],
    )
    ∷ (Column.description, "description" ∷ "objective" ∷ [])
    ∷ (Column.precondition, "precondition" ∷ "preconditions" ∷ [])
    ∷ (Column.priority, "priority" ∷ [])
    ∷ (Column.status, "status" ∷ [])
    ∷ (Column.components, "components" ∷ "component" ∷ [])
    ∷ (Column.labels, "labels" ∷ "label" ∷ "tags" ∷ "tag" ∷ [])
    ∷ (Column.folder, "folder" ∷ "folderpath" ∷ "path" ∷ [])
    ∷ (Column.external_key, "key" ∷ "testcasekey" ∷ "testcaseid" ∷ "issuekey" ∷ "id" ∷ [])
    ∷ (
      Column.step_summary,
      "stepsummary" ∷ "step" ∷ "teststep" ∷ "action" ∷ "stepaction" ∷ "stepdescription"
          ∷ "teststepdescription" ∷ [],
    )
    ∷ (Column.test_data, "testdata" ∷ "data" ∷ "inputdata" ∷ "stepdata" ∷ "input" ∷ [])
    ∷ (Column.expected, "expectedresult" ∷ "expected" ∷ "expectedresults" ∷ "expectedoutcome" ∷ [])
    ∷ []

abbrev pub Columns : Type 0
Columns = List (Column × ℕ)

unfoldable pub column_at : Column → Columns → Option ℕ
column_at c [] = none
column_at c ((d, i) ∷ rest) = if column_code c == column_code d then some i else column_at c rest

abbrev is_alphanumeric : ℕ → Bool
is_alphanumeric c = (leb b'a' c && leb c b'z') || (leb b'0' c && leb c b'9')

keep_alphanumeric : String → String
keep_alphanumeric String.[] = String.[]
keep_alphanumeric (String.◌∷◌ c s) =
    let rest = keep_alphanumeric s in if is_alphanumeric (code c) then String.◌∷◌ c rest else rest

unfoldable pub normalize_header : String → String
unfolding lower_case keep_alphanumeric
normalize_header h = keep_alphanumeric (lower_case h)

abbrev is_taken : Column → Columns → Bool
is_taken c cols = elim (column_at c cols) [ none ↦ false | some i ↦ true ]

-- The first column that is not taken and has this alias. No alias stands twice in the table, so
-- that the order in which Go goes through its map does not matter.
unfoldable pub match_column : String → Columns → List (Column × List String) → Option Column
unfolding column_at
match_column norm cols [] = none
match_column norm cols ((c, aliases) ∷ rest) =
    if not (is_taken c cols) && any (str_eq norm) aliases
    then some c
    else match_column norm cols rest

-- The columns that are found, and the headers that match none.
unfoldable pub map_headers_from : ℕ → Columns → List String → Columns × List String
unfolding normalize_header match_column trim_space
map_headers_from i cols [] = (cols, [])
map_headers_from i cols (h ∷ rest) =
    let norm = normalize_header h in
    let skipped = map_headers_from (suc i) cols rest in
    elim (str_eq norm "") [
      | true ↦ skipped
      | false ↦ elim (match_column norm cols header_aliases) [
        | some c ↦ map_headers_from (suc i) ((c, i) ∷ cols) rest
        | none ↦
            (let (found, unmatched) = map_headers_from (suc i) cols rest in
              (found, trim_space h ∷ unmatched))
      ]
    ]

unfoldable pub map_headers : List String → Columns × List String
unfolding map_headers_from
map_headers header = map_headers_from 0 [] header

distinct_texts : List String → Bool
distinct_texts [] = true
distinct_texts (s ∷ rest) = not (any (str_eq s) rest) && distinct_texts rest

all_aliases : List (Column × List String) → List String
all_aliases [] = []
all_aliases ((c, aliases) ∷ rest) = aliases ++ all_aliases rest

no_alias_twice : distinct_texts (all_aliases header_aliases) ≡ true
unfolding distinct_texts all_aliases
no_alias_twice = refl

maps :
    map_headers ("Test Case Key" ∷ "Title" ∷ "Colour" ∷ [])
    ≡ ((Column.summary, 1) ∷ (Column.external_key, 0) ∷ [], "Colour" ∷ [])
unfolding map_headers
maps = refl
