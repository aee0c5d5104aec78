-- ===== src/Mcp/Reported.antt =====
-- What report_step_result records.
use open_cuttles.Base.{
  ◌↔◌, Option, subst, str_eq, Bool, Bool-cases, String, List, ◌≡◌, ◌≢◌, ◌⊎◌, ◌∙◌, inl, inr, true,
  false, none, some, refl, sym, ap,
}
use open_cuttles.Domain.{StepStatus, StepResult}
use open_cuttles.Mcp.Worded.{
  IsTextOf, IsStatusOf, step_text-IsTextOf, reported_status-IsStatusOf, is_pass_iff,
}
use open_cuttles.Base.Int.{ℤ}
use open_cuttles.Mcp.Report.{
  count_report, report_to, reported_step, report_bound, report_step_result, evidence_name,
  reported_status, with_screenshot,
}
use open_cuttles.Go.Strings.{trim_space}
use open_cuttles.Go.Laws.{branch-rule, Result-cases}
use open_cuttles.Mcp.{resolve_device, bound_to, BoundRun, in_lab, Desk, in_ledger, Gear}
use open_cuttles.Mcp.Resolved.{resolve_device-Found, device_of}
use open_cuttles.CaseStore.{Archive}
use open_cuttles.CaseStore.Appended.{append_step-Appended, Appended}
use open_cuttles.Go.{pure, Result, ◌>>=◌, ok}
use open_cuttles.CaseStore.Runs.{append_step}
use open_cuttles.Store.{Context}
use open_cuttles.DeviceControl.Operations

-- The result that a report stands for; its screenshot is named where one was written.
pub record IsReport (texts : List String) (index : ℤ) (said note : String) (r : StepResult)
    : Type 0 where
  pub is_text : IsTextOf texts index r.text
  pub is_status : IsStatusOf said r.status
  pub is_pass_flag : (r.pass ≡ true) ↔ (r.status ≡ StepStatus.pass)
  pub is_detail : r.detail ≡ trim_space note

-- A report that was recorded is the last result of the run that the device is bound to.
pub record Recorded (index : ℤ) (said note : String) (s t : Desk) : Type 0 where
  pub id : String
  pub bound : BoundRun
  pub result : StepResult
  pub is_device : device_of "" s ≡ some id
  pub is_bound : bound_to id s.runs ≡ some bound
  pub is_report : IsReport bound.step_texts index said note result
  pub is_appended : Appended bound.run_id result s.archive t.archive

abbrev Outcome : ℤ → String → String → Desk → Result Bool × Desk → Type 0
Outcome index said note s p =
    ((p.0 ≢ ok true) × (p.1.archive ≡ s.archive))
    ⊎ ((p.0 ≡ ok true) × Recorded index said note s p.1)

module _ (g : Gear) (ctx : Context) where
  evidence-IsReport :
      (texts : List String) (index : ℤ) (said note id : String) (bound : BoundRun) (r : StepResult)
      (s : Desk)
      → IsReport texts index said note r
      → IsReport texts index said note (with_screenshot g ctx id bound r s).0
        × ((with_screenshot g ctx id bound r s).1.archive ≡ s.archive)
  unfolding with_screenshot in_lab
  evidence-IsReport texts index said note id bound r s k =
      elim (Bool-cases (str_eq bound.run_dir "")) [
        | inl h ↦ rw h (k, refl)
        | inr h ↦ rw h (elim (Result-cases (Operations.screenshot g.bench ctx id s.lab).0) [
          | inr (e, j) ↦ rw j (k, refl)
          | inl (png, j) ↦
              rw j (elim (Bool-cases (g.write_file bound.run_dir (evidence_name bound.steps) png)) [
                | inl w ↦ rw w (
                  record {
                    is_text = k.is_text;
                    is_status = k.is_status;
                    is_pass_flag = k.is_pass_flag;
                    is_detail = k.is_detail;
                  },
                  refl,
                )
                | inr w ↦ rw w (k, refl)
              ])
        ])
      ]

  recorded_lem :
      (index : ℤ) (said note id : String) (bound : BoundRun) (r : StepResult) (s u : Desk)
      → device_of "" s ≡ some id
      → bound_to id s.runs ≡ some bound
      → IsReport bound.step_texts index said note r
      → u.archive ≡ s.archive
      → Outcome index said note s
          ((in_ledger (append_step g.bench.database ctx bound.run_id r) >>= λ v. pure true) u)
  unfolding in_ledger ◌>>=◌
  recorded_lem index said note id bound r s u dev bnd rep same =
      let left : Archive =
        (append_step g.bench.database ctx bound.run_id r
          (record { world = u.lab.world; archive = u.archive })).1.archive in
      elim (append_step-Appended g.bench.database ctx bound.run_id r
        (record { world = u.lab.world; archive = u.archive })) [
          | inl (e, failed, kept) ↦ inl (rw failed (λ f. cc f), rw failed (kept ∙ same))
          | inr (done, app) ↦ inr (
            rw done refl,
            record {
              id = id;
              bound = bound;
              result = r;
              is_device = dev;
              is_bound = bnd;
              is_report = rep;
              is_appended = rw done (subst (λ a. Appended bound.run_id r a left) same app);
            },
          )
        ]

  bound-Outcome :
      (index : ℤ) (said note id : String) (o : Option BoundRun) (s u : Desk)
      → device_of "" s ≡ some id
      → bound_to id s.runs ≡ o
      → u.archive ≡ s.archive
      → Outcome index said note s (report_bound g ctx id o index said note u)
  unfolding report_bound reported_step report_to
  bound-Outcome index said note id none s u dev bnd same = inl (λ f. cc f, same)
  bound-Outcome index said note id (some bound) s u dev bnd same = elim (Bool-cases g.has_sink) [
    | inr h ↦ rw h (inl (λ f. cc f, same))
    | inl h ↦
        let r = reported_step bound.step_texts index said note in
        let counted = record u { runs = count_report id u.runs } in
        let (rep, kept) =
          evidence-IsReport bound.step_texts index said note id bound r counted (record {
            is_text = step_text-IsTextOf bound.step_texts index;
            is_status = reported_status-IsStatusOf said;
            is_pass_flag = is_pass_iff (reported_status said);
            is_detail = refl;
          }) in
        rw h (
          recorded_lem index said note id bound (with_screenshot g ctx id bound r counted).0 s
            (with_screenshot g ctx id bound r counted).1 dev bnd rep (kept ∙ same))
  ]

  -- A report either is not recorded and changes no table; or a device is active, or else exactly one
  -- is running or online, the device is bound to a run, and the report is appended to that run,
  -- with the text of its step where there is one, the note, and the status `fail` or `blocked` if it
  -- says so; any other status is recorded as a step that passed. Every other run reads as before.
  pub report_step_result-Recorded :
      (index : ℤ) (said note : String) (s : Desk)
      → ((report_step_result g ctx index said note s).0 ≢ ok true)
          × ((report_step_result g ctx index said note s).1.archive ≡ s.archive)
        ⊎ (((report_step_result g ctx index said note s).0 ≡ ok true)
            × Recorded index said note s (report_step_result g ctx index said note s).1)
  unfolding report_step_result
  report_step_result-Recorded index said note s =
      let found = resolve_device-Found g ctx "" s in
      let at = (resolve_device g ctx "" s).1 in
      branch-rule (Outcome index said note s) (resolve_device g ctx "" s) (λ e. pure false)
        (λ id t. report_bound g ctx id (bound_to id t.runs) index said note t)
        (λ e h. inl (λ f. cc f, ap (λ (t : Desk). t.archive) found.lab_only))
        (λ id h.
          bound-Outcome index said note id (bound_to id at.runs) s at (found.is_device id h)
            (ap (λ (t : Desk). bound_to id t.runs) (sym found.lab_only))
            (ap (λ (t : Desk). t.archive) found.lab_only))
