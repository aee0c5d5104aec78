-- ===== src/Intake/Drafts.antt =====
-- backend/internal/specdoc/generate.go: from a model's answer about a document to drafts of cases.
-- encoding/json and the model are parameters; an answer is the list of its code points.
use open_cuttles.Go.{message, Error, ◌>>=◌, ◌>>◌, ok, err}
use open_cuttles.Base.Int.{pos}
use open_cuttles.Base.{
  not, ltb, map, Option, any, keep, Bool, str_eq, String, List, ℕ, ◌+◌, ◌≡◌, ◌&&◌, [], ◌∷◌, ◌++◌,
  if◌then◌else◌, ◌==◌, true, false, none, some, refl,
}
use open_cuttles.Go.Text.{is_empty, cut_at, Text, trim}
use open_cuttles.Domain.{TestStep, TestCase}
use open_cuttles.Go.Strings.{is_prefix, lower_case, trim_space, decimal, codes}
use Prim.Native.String.{◌++◌ as concat}

-- casePayload
pub record ProposedStep : Type 0 where
  pub action : String
  pub test_data : String
  pub expected : String

pub record Proposal : Type 0 where
  pub summary : String
  pub description : String
  pub precondition : String
  pub priority : String
  pub labels : List String
  pub steps : List ProposedStep

pub record DraftResult : Type 0 where
  pub cases : List TestCase
  pub warnings : List String
  pub dropped : ℕ

-- What Complete answers: a text, a text that was cut off (ErrTruncated), or another error.
pub data Completion : Type 0 where
  complete truncated : Text → Completion
  failed : Error → Completion

abbrev backticks : Text
backticks = b'`' ∷ b'`' ∷ b'`' ∷ []

-- The text before the last occurrence of a text.
unfoldable pub before_last : Text → Text → Option Text
unfolding is_prefix
before_last p [] = none
before_last p (c ∷ s) = elim (before_last p s) [
  | some a ↦ some (c ∷ a)
  | none ↦ if is_prefix p (c ∷ s) then some [] else none
]

after_line : Text → Text
unfolding cut_at
after_line s = elim (cut_at 10 s) [ some (a, b) ↦ b | none ↦ s ]

before_fence : Text → Text
unfolding before_last
before_fence s = elim (before_last backticks s) [ some a ↦ a | none ↦ s ]

-- stripCodeFence
unfoldable pub strip_code_fence : Text → Text
unfolding is_prefix after_line before_fence trim
strip_code_fence s = if is_prefix backticks s then trim (before_fence (after_line s)) else s

unfoldable pub from_first : ℕ → Text → Text
from_first c [] = []
from_first c (d ∷ s) = let rest = from_first c s in if d == c then d ∷ s else rest

unfoldable pub through_last : ℕ → Text → Option Text
through_last c [] = none
through_last c (d ∷ s) = elim (through_last c s) [
  | some a ↦ some (d ∷ a)
  | none ↦ if d == c then some (d ∷ []) else none
]

-- outermostJSONObject: from the first { to the last }
unfoldable pub outermost_object : Text → Option Text
unfolding from_first through_last
outermost_object s = through_last b'}' (from_first b'{' s)

-- decodeCasePayload; the flag says that the object had to be recovered.
unfoldable pub decode_payload :
    (Text → Option (List Proposal)) → Text → Option (List Proposal × Bool)
unfolding outermost_object
decode_payload unmarshal s = elim (unmarshal s) [
  | some p ↦ some (p, false)
  | none ↦ elim (outermost_object s) [
    | none ↦ none
    | some inner ↦ elim (unmarshal inner) [ none ↦ none | some p ↦ some (p, true) ]
  ]
]

unfoldable pub normalize_priority : String → String
unfolding lower_case trim_space
normalize_priority p =
    let said = lower_case (trim_space p) in
    if any (str_eq said) ("high" ∷ "highest" ∷ "critical" ∷ "p0" ∷ "p1" ∷ [])
    then "high"
    else if any (str_eq said) ("low" ∷ "lowest" ∷ "minor" ∷ "p3" ∷ "p4" ∷ [])
    then "low"
    else if str_eq said ""
    then ""
    else "medium"

unfoldable pub clean_strings : List String → List String
unfolding trim_space
clean_strings texts = keep (λ s. not (str_eq s "")) (map trim_space texts)

unfoldable pub drafted_steps : List ProposedStep → List TestStep
unfolding trim_space
drafted_steps [] = []
drafted_steps (s ∷ rest) =
    let later = drafted_steps rest in
    if str_eq (trim_space s.action) "" && str_eq (trim_space s.expected) ""
    then later
    else record {
      index = 0;
      action = trim_space s.action;
      test_data = trim_space s.test_data;
      expected = trim_space s.expected;
    }
      ∷ later

unfoldable pub drafted_case : Proposal → TestCase
unfolding trim_space normalize_priority clean_strings drafted_steps
drafted_case p = record {
  id = "";
  summary = trim_space p.summary;
  description = trim_space p.description;
  precondition = trim_space p.precondition;
  priority = normalize_priority p.priority;
  status = "";
  labels = clean_strings p.labels;
  components = [];
  folder_path = "";
  steps = drafted_steps p.steps;
  external_key = "";
  created_at = 0;
  updated_at = 0;
}

-- A proposal with no summary or no steps is dropped and counted.
unfoldable pub is_usable : TestCase → Bool
is_usable c = not (str_eq c.summary "") && not (is_empty c.steps)

unfoldable pub collect_cases : List Proposal → List TestCase × ℕ
unfolding drafted_case is_usable
collect_cases [] = ([], 0)
collect_cases (p ∷ rest) =
    let (cases, dropped) = collect_cases rest in
    if is_usable (drafted_case p) then (drafted_case p ∷ cases, dropped) else (cases, dropped + 1)

unfoldable pub parse_warnings : Bool → ℕ → List String
unfolding decimal
parse_warnings recovered dropped =
    (if recovered
      then "the model wrapped its answer in extra text; the cases were recovered but check them closely"
        ∷ []
      else [])
    ++ (if ltb 0 dropped
        then concat (decimal (pos dropped))
            " proposal(s) were discarded for having no summary or no steps"
          ∷ []
        else [])

abbrev no_cases : String → DraftResult
no_cases warning = record { cases = []; warnings = warning ∷ []; dropped = 0 }

unfoldable pub drafts_of : Option (List Proposal × Bool) → DraftResult
unfolding collect_cases parse_warnings
drafts_of none =
    no_cases
      "the model's response could not be read as test cases. Try again, or use a different model."
drafts_of (some (proposals, recovered)) = record {
  cases = (collect_cases proposals).0;
  dropped = (collect_cases proposals).1;
  warnings = parse_warnings recovered (collect_cases proposals).1;
}

unfoldable pub parse_cases : (Text → Option (List Proposal)) → Text → DraftResult
unfolding strip_code_fence trim decode_payload drafts_of
parse_cases unmarshal raw =
    let s = strip_code_fence (trim raw) in
    if is_empty s
    then no_cases "the model returned an empty response"
    else drafts_of (decode_payload unmarshal s)

abbrev pub as_draft : String → TestCase → TestCase
as_draft folder c = record c {
  folder_path = folder;
  status = if str_eq c.status "" then "draft" else c.status;
}

unfoldable pub drafts_from :
    (Text → Option (List Proposal)) → List String → String → Text → DraftResult × Option Error
unfolding parse_cases
drafts_from unmarshal warnings folder raw =
    let read = parse_cases unmarshal raw in
    (
      record {
        cases = map (as_draft folder) read.cases;
        warnings = warnings ++ read.warnings;
        dropped = read.dropped;
      },
      if is_empty read.cases
          then some (message "the model returned no usable test cases from this document")
          else none,
    )

abbrev no_drafts : DraftResult
no_drafts = record { cases = []; warnings = []; dropped = 0 }

unfoldable pub drafts_after :
    (Text → Option (List Proposal)) → List String → String → Completion → DraftResult × Option Error
unfolding drafts_from
drafts_after unmarshal warnings folder (Completion.failed e) = (no_drafts, some e)
drafts_after unmarshal warnings folder (Completion.complete raw) =
    drafts_from unmarshal warnings folder raw
drafts_after unmarshal warnings folder (Completion.truncated raw) =
    drafts_from unmarshal
      (warnings
        ++ "the model hit its output limit, so the later part of the specification may not be covered"
          ∷ [])
      folder raw

abbrev pub no_text : Error
no_text = message (
    concat
      "no readable text found in this document. If it is a scan or images of pages, the text has to be"
      " recognized first — paste the relevant section instead")

-- Generate: the drafts, and the error that stands beside them.
unfoldable pub generate :
    (Text → Option (List Proposal))
    → (Text → Completion)
    → Text
    → List String
    → String
    → DraftResult × Option Error
unfolding drafts_after trim codes
generate unmarshal ask document warnings folder =
    if is_empty (trim document)
    then (no_drafts, some no_text)
    else drafts_after unmarshal warnings folder (ask (codes "Specification:\n\n" ++ document))

strips : strip_code_fence (codes "```json\n{}\n```") ≡ codes "{}"
unfolding strip_code_fence codes open_cuttles.Go.Strings.is_space
strips = refl
