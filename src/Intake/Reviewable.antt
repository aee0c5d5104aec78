-- ===== src/Intake/Reviewable.antt =====
-- What a reviewer is shown of a model's proposals.
use open_cuttles.Intake.Drafts.{
  drafts_of, decode_payload, strip_code_fence, parse_cases, drafts_from, as_draft, ProposedStep,
  Proposal, drafted_case, normalize_priority, drafted_steps, is_usable, collect_cases,
}
use open_cuttles.Base.{
  length-map, Option, Bool, not, Bool-cases, map, All, length, eq_iff, str_eq, List, String, ◌+◌,
  ◌≡◌, ◌≢◌, ◌<◌, ◌&&◌, ◌⊎◌, ◌∙◌, inl, inr, [], ◌∷◌, if◌then◌else◌, true, false, none, some, refl,
  ap, arith,
}
use open_cuttles.Go.Text.{trim, Text, is_empty}
use open_cuttles.Go.Strings.{trim_space}
use open_cuttles.Domain.{TestCase, TestStep}

abbrev HasText : TestStep → Type 0
HasText s = (s.action ≢ "") ⊎ (s.expected ≢ "")

abbrev IsPriority : String → Type 0
IsPriority p = (p ≡ "high") ⊎ (p ≡ "medium") ⊎ (p ≡ "low") ⊎ (p ≡ "")

-- A draft that can be judged: it is named, is in the folder, is marked as a draft, has a priority
-- that the product knows, and has steps, each with an action or an expected result.
pub record IsReviewable (folder : String) (c : TestCase) : Type 0 where
  pub has_summary : c.summary ≢ ""
  pub in_folder : c.folder_path ≡ folder
  pub is_draft : c.status ≡ "draft"
  pub known_priority : IsPriority c.priority
  pub has_steps : 0 < length c.steps
  pub steps_have_text : All HasText c.steps

normalize_priority-IsPriority : (p : String) → IsPriority (normalize_priority p)
unfolding normalize_priority
normalize_priority-IsPriority p = ground arith

ne_of : (s t : String) → str_eq s t ≡ false → s ≢ t
ne_of s t h = λ e. cc (h, (eq_iff s t).1 e)

drafted_steps-HasText : (steps : List ProposedStep) → All HasText (drafted_steps steps)
unfolding drafted_steps
drafted_steps-HasText [] = tt
drafted_steps-HasText (s ∷ rest) = elim (Bool-cases (str_eq (trim_space s.action) "")) [
  | inr a ↦ rw a (inl (ne_of (trim_space s.action) "" a), drafted_steps-HasText rest)
  | inl a ↦ elim (Bool-cases (str_eq (trim_space s.expected) "")) [
    | inl e ↦ rw (a, e) (drafted_steps-HasText rest)
    | inr e ↦ rw (a, e) (inr (ne_of (trim_space s.expected) "" e), drafted_steps-HasText rest)
  ]
]

both_true : (a b : Bool) → (a && b) ≡ true → (a ≡ true) × (b ≡ true)
both_true a b h = ground arith

not_empty : {A : Type 0} (l : List A) → not (is_empty l) ≡ true → 0 < length l
not_empty [] h = cc h
not_empty (x ∷ l) h = omega arith

usable_parts : (c : TestCase) → is_usable c ≡ true → (c.summary ≢ "") × (0 < length c.steps)
unfolding is_usable
usable_parts c h =
    let (named, stepped) = both_true (not (str_eq c.summary "")) (not (is_empty c.steps)) h in
    (λ e. cc (named, (eq_iff c.summary "").1 e), not_empty c.steps stepped)

usable-IsReviewable :
    (folder : String) (p : Proposal)
    → is_usable (drafted_case p) ≡ true
    → IsReviewable folder (as_draft folder (drafted_case p))
unfolding drafted_case
usable-IsReviewable folder p h =
    let (named, stepped) = usable_parts (drafted_case p) h in
    record {
      has_summary = named;
      in_folder = refl;
      is_draft = unfold drafted_case in refl;
      known_priority = normalize_priority-IsPriority p.priority;
      has_steps = stepped;
      steps_have_text = drafted_steps-HasText p.steps;
    }

-- The usable proposals are kept and the others counted.
collected :
    (folder : String) (proposals : List Proposal)
    → All (IsReviewable folder) (map (as_draft folder) (collect_cases proposals).0)
      × (length (collect_cases proposals).0 + (collect_cases proposals).1 ≡ length proposals)
unfolding collect_cases
collected folder [] = (tt, omega arith)
collected folder (p ∷ rest) = elim (Bool-cases (is_usable (drafted_case p))) [
  | inl h ↦
      let (cs, n) = collected folder rest in
      rw h ((usable-IsReviewable folder p h, cs), omega (arith, n))
  | inr h ↦ let (cs, n) = collected folder rest in rw h (cs, omega (arith, n))
]

abbrev read_proposals : Option (List Proposal × Bool) → List Proposal
read_proposals none = []
read_proposals (some (proposals, recovered)) = proposals

-- The proposals of an answer; none where it is empty or cannot be read.
pub proposals_in : (Text → Option (List Proposal)) → Text → List Proposal
proposals_in unmarshal raw =
    let s = strip_code_fence (trim raw) in
    if is_empty s then [] else read_proposals (decode_payload unmarshal s)

drafts_of_lem :
    (folder : String) (o : Option (List Proposal × Bool))
    → All (IsReviewable folder) (map (as_draft folder) (drafts_of o).cases)
      × (length (drafts_of o).cases + (drafts_of o).dropped ≡ length (read_proposals o))
unfolding drafts_of
drafts_of_lem folder none = (tt, omega arith)
drafts_of_lem folder (some (proposals, recovered)) = collected folder proposals

parse_cases_lem :
    (unmarshal : Text → Option (List Proposal)) (folder : String) (raw : Text)
    → All (IsReviewable folder) (map (as_draft folder) (parse_cases unmarshal raw).cases)
      × (length (parse_cases unmarshal raw).cases + (parse_cases unmarshal raw).dropped
          ≡ length (proposals_in unmarshal raw))
unfolding parse_cases proposals_in
parse_cases_lem unmarshal folder raw = elim (Bool-cases (is_empty (strip_code_fence (trim raw)))) [
  | inl h ↦ rw h (tt, omega arith)
  | inr h ↦ rw h (drafts_of_lem folder (decode_payload unmarshal (strip_code_fence (trim raw))))
]

-- Whatever the model answers to a document, every draft can be reviewed: it has a summary, it is in
-- the folder that was asked for and marked as a draft, its priority is high, medium, low or none,
-- and it has at least one step, each with an action or an expected result. The drafts and the
-- number of those dropped add up to the proposals of the answer.
pub drafts_from-IsReviewable :
    (unmarshal : Text → Option (List Proposal)) (warnings : List String) (folder : String)
    (raw : Text)
    → let r = (drafts_from unmarshal warnings folder raw).0 in
      All (IsReviewable folder) r.cases
      × (length r.cases + r.dropped ≡ length (proposals_in unmarshal raw))
unfolding drafts_from
drafts_from-IsReviewable unmarshal warnings folder raw =
    let (fit, count) = parse_cases_lem unmarshal folder raw in
    (
      fit,
      ap (λ n. n + (parse_cases unmarshal raw).dropped)
            (length-map (as_draft folder) (parse_cases unmarshal raw).cases)
          ∙ count,
    )
