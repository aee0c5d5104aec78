-- ===== src/Intake/Counted.antt =====
-- Whatever the rows of an export are, none is dropped silently, and the counts are those of the
-- cases that are imported.
use open_cuttles.Base.{
  map, Bool-cases, subst, eq_iff, length-append, str_eq, All, All-append, length, String, List,
  Option, ℕ, ◌+◌, ◌≡◌, ◌≢◌, ◌≤◌, inl, inr, [], ◌∷◌, ◌++◌, if◌then◌else◌, suc, false, none, some,
  refl, ap, arith,
}
use open_cuttles.Intake.Rows.{
  step_of, nothing_yet, has_step, cell, finish_rows, add_step, new_case_of, read_row, read_rows,
  parse_rows, is_blank_row, Import, flush,
}
use open_cuttles.Intake.Headers.{map_headers, column_at, Column, Columns}
use Prim.Native.String.{◌++◌ as concat}
use open_cuttles.Domain.{TestStep, TestCase}
use open_cuttles.CaseStore.Cases.{reindex_steps, reindex_from}

unfoldable pub step_count : List TestCase → ℕ
step_count [] = 0
step_count (c ∷ rest) = length c.steps + step_count rest

unfoldable pub nonblank_rows : List (List String) → ℕ
nonblank_rows [] = 0
nonblank_rows (row ∷ rest) = (if is_blank_row row then 0 else 1) + nonblank_rows rest

abbrev pub HasSummary : TestCase → Type 0
HasSummary c = c.summary ≢ ""

abbrev open_steps : Option TestCase → ℕ
open_steps none = 0
open_steps (some c) = length c.steps

abbrev open_cases : Option TestCase → ℕ
open_cases none = 0
open_cases (some c) = 1

abbrev OpenHasSummary : Option TestCase → Type 0
OpenHasSummary none = Unit {0}
OpenHasSummary (some c) = HasSummary c

-- After `n` rows that are not blank.
record IsCounted (n : ℕ) (p : Option TestCase × Import) : Type 0 where
  steps : p.1.steps_parsed ≡ step_count p.1.cases + open_steps p.0
  rows : n ≤ p.1.rows_skipped + length p.1.cases + open_cases p.0 + p.1.steps_parsed
  summaries : All HasSummary p.1.cases
  open_summary : OpenHasSummary p.0

step_count-append : (cs ds : List TestCase) → step_count (cs ++ ds) ≡ step_count cs + step_count ds
unfolding step_count
step_count-append [] ds = omega arith
step_count-append (c ∷ cs) ds = omega (arith, step_count-append cs ds)

length-reindex_from : (i : ℕ) (steps : List TestStep) → length (reindex_from i steps) ≡ length steps
unfolding reindex_from
length-reindex_from i [] = refl
length-reindex_from i (s ∷ rest) = ap suc (length-reindex_from (suc i) rest)

closed_steps :
    (c : TestCase) → step_count (record c { steps = reindex_steps c.steps } ∷ []) ≡ length c.steps
unfolding step_count reindex_steps
closed_steps c = omega (arith, length-reindex_from 0 c.steps)

flush-IsCounted :
    (n : ℕ) (p : Option TestCase × Import) → IsCounted n p → IsCounted n (none, flush p.0 p.1)
unfolding flush
flush-IsCounted n (none, r) k = k
flush-IsCounted n (some c, r) k =
    let closed = record c { steps = reindex_steps c.steps } ∷ [] in
    record {
      steps = omega (arith, k.steps, step_count-append r.cases closed, closed_steps c);
      rows = omega (arith, k.rows, length-append r.cases closed);
      summaries = All-append HasSummary r.cases closed k.summaries (k.open_summary, tt);
      open_summary = tt;
    }

weaken : (n : ℕ) (p : Option TestCase × Import) → IsCounted (suc n) p → IsCounted n p
weaken n p k = record {
  steps = k.steps;
  rows = omega (arith, k.rows);
  summaries = k.summaries;
  open_summary = k.open_summary;
}

skip-IsCounted :
    (n : ℕ) (cur : Option TestCase) (r : Import)
    → IsCounted n (cur, r)
    → IsCounted (suc n) (cur, record r { rows_skipped = r.rows_skipped + 1 })
skip-IsCounted n cur r k = record {
  steps = k.steps;
  rows = omega (arith, k.rows);
  summaries = k.summaries;
  open_summary = k.open_summary;
}

add_step-IsCounted :
    (n : ℕ) (step : TestStep) (p : Option TestCase × Import)
    → IsCounted n p
    → IsCounted (suc n) (add_step step p)
unfolding add_step
add_step-IsCounted n step (none, r) k = skip-IsCounted n none r k
add_step-IsCounted n step (some c, r) k = record {
  steps = omega (arith, k.steps, length-append c.steps (step ∷ []));
  rows = omega (arith, k.rows);
  summaries = k.summaries;
  open_summary = k.open_summary;
}

start-IsCounted :
    (n : ℕ) (get : Column → String) (p : Option TestCase × Import)
    → get Column.summary ≢ ""
    → IsCounted n p
    → IsCounted (suc n) (some (new_case_of get), flush p.0 p.1)
unfolding new_case_of
start-IsCounted n get p h k =
    let f = flush-IsCounted n p k in
    record {
      steps = omega (arith, f.steps);
      rows = omega (arith, f.rows);
      summaries = f.summaries;
      open_summary = h;
    }

str_eq-ne : (s t : String) → str_eq s t ≡ false → s ≢ t
str_eq-ne s t h = λ e. cc (h, (eq_iff s t).1 e)

read_row-IsCounted :
    (n : ℕ) (get : Column → String) (p : Option TestCase × Import)
    → IsCounted n p
    → IsCounted (suc n) (read_row get p)
unfolding read_row
read_row-IsCounted n get p k = elim (Bool-cases (str_eq (get Column.summary) "")) [
  | inl blank ↦ elim (Bool-cases (has_step get)) [
    | inl h ↦ rw (blank, h) (add_step-IsCounted n (step_of get) p k)
    | inr h ↦ rw (blank, h) (skip-IsCounted n p.0 p.1 k)
  ]
  | inr named ↦
      let begun = start-IsCounted n get p (str_eq-ne (get Column.summary) "" named) k in
      elim (Bool-cases (has_step get)) [
        | inl h ↦ rw (named, h) (add_step-IsCounted n (step_of get) _ (weaken n _ begun))
        | inr h ↦ rw (named, h) begun
      ]
]

read_rows-IsCounted :
    (cols : Columns) (rows : List (List String)) (n : ℕ) (p : Option TestCase × Import)
    → IsCounted n p
    → IsCounted (n + nonblank_rows rows) (read_rows cols rows p)
unfolding read_rows nonblank_rows
read_rows-IsCounted cols [] n p k = subst (λ m. IsCounted m p) (omega arith) k
read_rows-IsCounted cols (row ∷ rest) n p k = elim (Bool-cases (is_blank_row row)) [
  | inl h ↦ rw h (
      subst (λ m. IsCounted m (read_rows cols rest p)) (omega arith)
        (read_rows-IsCounted cols rest n p k))
  | inr h ↦ rw h (
      subst (λ m. IsCounted m (read_rows cols rest (read_row (cell cols row) p))) (omega arith)
        (read_rows-IsCounted cols rest (suc n) _ (read_row-IsCounted n (cell cols row) p k)))
]

-- An import counts its cases and their steps, every case has a summary, and every row below the
-- headers that is not blank was counted as skipped, as a case or as a step, provided that one of
-- the headers stands for the summary.
pub parse_rows-accounts :
    (header : List String) (rows : List (List String)) (i : ℕ)
    → column_at Column.summary (map_headers header).0 ≡ some i
    → let r = parse_rows (header ∷ rows) in
      (r.cases_parsed ≡ length r.cases)
      × (r.steps_parsed ≡ step_count r.cases)
      × All HasSummary r.cases
      × (nonblank_rows rows ≤ r.rows_skipped + r.cases_parsed + r.steps_parsed)
unfolding parse_rows finish_rows
parse_rows-accounts header rows i h =
    let (cols, unmatched) = map_headers header in
    let start : Import = nothing_yet (map (λ u. concat "unmapped column: " u) unmatched) in
    let none_read : IsCounted 0 (none, start) = record {
      steps = unfold step_count in refl;
      rows = omega arith;
      summaries = tt;
      open_summary = tt;
    } in
    let k =
      flush-IsCounted (0 + nonblank_rows rows) (read_rows cols rows (none, start))
        (read_rows-IsCounted cols rows 0 (none, start) none_read) in
    rw (h, parse_rows) (refl, omega (arith, k.steps), k.summaries, omega (arith, k.rows))
