-- ===== src/Mcp/Worded.antt =====
-- What the text and the status of a reported step are.
use open_cuttles.Go.Strings.{decimal, trim_space, lower_case}
use open_cuttles.Base.{
  length, str_eq, Bool-cases, List, String, ℕ, ◌≡◌, ◌≢◌, ◌≤◌, ◌⊎◌, inl, inr, [], ◌∷◌, if◌then◌else◌,
  zero, suc, true, false, none, some, refl, arith, drop, eq_iff, ◌↔◌,
}
use Prim.Native.String.{◌++◌ as concat}
use open_cuttles.Domain.{StepStatus}
use open_cuttles.Mcp.Report.{nth_text, step_text, reported_status, is_pass}
use open_cuttles.Base.Int.{ℤ, pos, negsuc}

-- The text of the step with a 1-based number, or the number where there is no such step.
abbrev pub IsTextOf : List String → ℤ → String → Type 0
IsTextOf texts index t =
    ((i : ℕ) × (rest : List String) × (index ≡ pos (suc i)) × (drop i texts ≡ t ∷ rest))
    ⊎ ((t ≡ concat "Step " (decimal index)) × ((i : ℕ) → index ≡ pos (suc i) → length texts ≤ i))

-- Whatever is neither `fail` nor `blocked`, once trimmed and in lower case, stands for a pass.
abbrev pub IsStatusOf : String → StepStatus → Type 0
IsStatusOf said status =
    ((lower_case (trim_space said) ≡ "fail") × (status ≡ StepStatus.fail))
    ⊎ ((lower_case (trim_space said) ≡ "blocked") × (status ≡ StepStatus.blocked))
    ⊎ ((lower_case (trim_space said) ≢ "fail")
        × (lower_case (trim_space said) ≢ "blocked")
        × (status ≡ StepStatus.pass))

nth_text-cases :
    (texts : List String) (i : ℕ)
    → ((t : String) × (rest : List String) × (nth_text texts i ≡ some t)
        × (drop i texts ≡ t ∷ rest))
      ⊎ ((nth_text texts i ≡ none) × (length texts ≤ i))
unfolding nth_text
nth_text-cases [] i = inr (refl, omega arith)
nth_text-cases (t ∷ rest) zero = inl (t, rest, refl, refl)
nth_text-cases (t ∷ rest) (suc i) = elim (nth_text-cases rest i) [
  | inl found ↦ inl found
  | inr (h, n) ↦ inr (h, omega (arith, n))
]

pos_injective : {i j : ℕ} → pos i ≡ pos j → i ≡ j
pos_injective h = ground (arith, h)

pub step_text-IsTextOf :
    (texts : List String) (index : ℤ) → IsTextOf texts index (step_text texts index)
unfolding step_text
step_text-IsTextOf texts (pos (suc i)) = elim (nth_text-cases texts i) [
  | inl (t, rest, h, d) ↦ inl (i, rest, refl, rw (step_text, h) d)
  | inr (h, n) ↦ inr (rw (step_text, h) refl, λ j e. omega (arith, n, pos_injective e))
]
step_text-IsTextOf texts (pos zero) = inr (refl, λ i e. absurd (omega (arith, pos_injective e)))
step_text-IsTextOf texts (negsuc n) = inr (refl, λ i e. cc e)

same_of : (s t : String) → str_eq s t ≡ true → s ≡ t
same_of s t h = (eq_iff s t).0 h

other_of : (s t : String) → str_eq s t ≡ false → s ≢ t
other_of s t h e = cc (rw ((eq_iff s t).1 e) at h)

status_cases :
    (said : String)
    → let status =
        if str_eq said "fail"
        then StepStatus.fail
        else if str_eq said "blocked"
        then StepStatus.blocked
        else StepStatus.pass in
      ((said ≡ "fail") × (status ≡ StepStatus.fail))
      ⊎ ((said ≡ "blocked") × (status ≡ StepStatus.blocked))
      ⊎ ((said ≢ "fail") × (said ≢ "blocked") × (status ≡ StepStatus.pass))
status_cases said = elim (Bool-cases (str_eq said "fail")) [
  | inl h ↦ inl (same_of said "fail" h, rw h refl)
  | inr h ↦ elim (Bool-cases (str_eq said "blocked")) [
    | inl k ↦ inr (inl (same_of said "blocked" k, rw (h, k) refl))
    | inr k ↦ inr (inr (other_of said "fail" h, other_of said "blocked" k, rw (h, k) refl))
  ]
]

-- The Boolean flag beside the status.
pub is_pass_iff : (status : StepStatus) → (is_pass status ≡ true) ↔ (status ≡ StepStatus.pass)
is_pass_iff status = ground arith

pub reported_status-IsStatusOf : (said : String) → IsStatusOf said (reported_status said)
unfolding reported_status
reported_status-IsStatusOf said = status_cases (lower_case (trim_space said))
