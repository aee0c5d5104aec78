-- ===== src/Orchestrator/Quiet.antt =====
-- Launching, waiting and fetching run commands and read the tables; of the tables they write at
-- most an image's status. So the instances and the operations stay as they were.
use open_cuttles.Orchestrator.Tools.{
  is_adb_reachable, check, command_failed, stop, clear_stale_group, launch, ensure_image,
  mark_ready, mark_image_error, create_image_dir, fetch_failed,
}
use open_cuttles.Base.{
  ℕ, zero, suc, String, refl, inl, inr, Option-cases, Bool-cases, ◌+◌, Option, none, some, List,
  ltb, arith,
}
use open_cuttles.Go.{Error, Result, Exec}
use open_cuttles.Domain.{Image, Instance}
use open_cuttles.Store.{World, Tables, Context, Argument, advance}
use open_cuttles.Store.Keeps.{Keeps, Keeps-bind, keeps_rules}
use open_cuttles.Store.Laws.{rows_in, get_image-Keeps, update_image_status-Keeps}
use open_cuttles.Orchestrator.{Machine, CommandResult, run_in_dir, run, sleep, lift, annotated}
use open_cuttles.Orchestrator.Ready.{
  answered, boot_completed, get_status, wait_web_rtc_from, wait_web_rtc, wait_boot_from, wait_boot,
  connected, wait_ready,
}

module _ {X : Type 0} {f : Tables → X} where
  run_in_dir-Keeps :
      (m : Machine) (ctx : Context) (dir program : String) (arguments : List Argument)
      → Keeps f (run_in_dir m ctx dir program arguments)
  unfolding run_in_dir advance
  run_in_dir-Keeps m ctx dir program arguments = record { at = λ w. refl }

  sleep-Keeps : (ctx : Context) (ms : ℕ) → Keeps f (sleep ctx ms)
  unfolding sleep
  sleep-Keeps none ms = record { at = λ w. refl }
  sleep-Keeps (some deadline) ms = record { at = λ w. ground arith }

  annotated-Keeps :
      {A : Type 0} (text : String) (m : Exec World A) → Keeps f m → Keeps f (annotated text m)
  unfolding annotated
  annotated-Keeps text m k = record { at = λ w. k.at w }

  lift-Keeps : {A : Type 0} (r : Result A) → Keeps f (lift r)
  unfolding lift
  lift-Keeps r = record { at = λ w. refl }

  check-Keeps : (e : Option Error) → Keeps f (check e)
  unfolding check
  check-Keeps none = search keeps_rules
  check-Keeps (some e) = search keeps_rules

  run-Keeps :
      (m : Machine) (ctx : Context) (program : String) (arguments : List Argument)
      → Keeps f (run m ctx program arguments)
  unfolding run
  run-Keeps m ctx program arguments = run_in_dir-Keeps m ctx "" program arguments

  command_failed-Keeps : (program : String) (r : CommandResult) → Keeps f (command_failed program r)
  unfolding command_failed
  command_failed-Keeps program r = elim (Option-cases r.failure) [
    | inl e ↦ rw e (search keeps_rules)
    | inr (x, e) ↦ rw e (search keeps_rules)
  ]

  connected-Keeps : (r : CommandResult) → Keeps f (connected r)
  unfolding connected
  connected-Keeps r = elim (Option-cases r.failure) [
    | inl e ↦ rw e (search keeps_rules)
    | inr (x, e) ↦ rw e (search keeps_rules)
  ]

  get_status-Keeps : (m : Machine) (ctx : Context) → Keeps f (get_status m ctx)
  unfolding get_status advance
  get_status-Keeps m ctx = record { at = λ w. refl }

  ruleset tool_rules = (
    keeps_rules, run_in_dir-Keeps, run-Keeps, sleep-Keeps, annotated-Keeps, lift-Keeps, check-Keeps,
    command_failed-Keeps, connected-Keeps, get_status-Keeps,
  )

  pub stop-Keeps : (m : Machine) (ctx : Context) (i : Instance) → Keeps f (stop m ctx i)
  unfolding stop
  stop-Keeps m ctx i = search tool_rules

  pub clear_stale_group-Keeps :
      (m : Machine) (ctx : Context) (i : Instance) → Keeps f (clear_stale_group m ctx i)
  unfolding clear_stale_group
  clear_stale_group-Keeps m ctx i = search tool_rules

  pub launch-Keeps : (m : Machine) (ctx : Context) (i : Instance) → Keeps f (launch m ctx i)
  unfolding launch
  launch-Keeps m ctx i = search (tool_rules, clear_stale_group-Keeps, get_image-Keeps) depth 9

  wait_web_rtc_from-Keeps :
      (n : ℕ) (m : Machine) (ctx : Context) (deadline : ℕ)
      → Keeps f (wait_web_rtc_from n m ctx deadline)
  unfolding wait_web_rtc_from
  wait_web_rtc_from-Keeps zero m ctx deadline = record { at = λ w. refl }
  wait_web_rtc_from-Keeps (suc n) m ctx deadline = record {
    at = λ w. elim (Bool-cases (ltb w.now deadline)) [
      | inl e ↦
          rw (e, wait_web_rtc_from)
            ((Keeps-bind (get_status m ctx) _ (get_status-Keeps m ctx) λ status.
                elim (Bool-cases (answered status)) [
                  | inl a ↦ rw a (search keeps_rules)
                  | inr a ↦ rw a (
                      Keeps-bind _ _ (sleep-Keeps ctx 2000)
                        λ _. wait_web_rtc_from-Keeps n m ctx deadline)
                ]).at
              w)
      | inr e ↦ rw (e, wait_web_rtc_from) refl
    ];
  }

  wait_web_rtc-Keeps : (m : Machine) (ctx : Context) → Keeps f (wait_web_rtc m ctx)
  unfolding wait_web_rtc
  wait_web_rtc-Keeps m ctx = record {
    at = λ w. (wait_web_rtc_from-Keeps 23 m ctx (w.now + 45000)).at w;
  }

  wait_boot_from-Keeps :
      (n : ℕ) (m : Machine) (ctx : Context) (i : Instance) (deadline : ℕ)
      → Keeps f (wait_boot_from n m ctx i deadline)
  unfolding wait_boot_from
  wait_boot_from-Keeps zero m ctx i deadline = record { at = λ w. refl }
  wait_boot_from-Keeps (suc n) m ctx i deadline = record {
    at = λ w. elim (Bool-cases (ltb w.now deadline)) [
      | inl e ↦
          rw (e, wait_boot_from)
            ((Keeps-bind (run m ctx "adb" _) _ (run-Keeps m ctx "adb" _) λ r.
                elim (Bool-cases (boot_completed r)) [
                  | inl a ↦ rw a (wait_web_rtc-Keeps m ctx)
                  | inr a ↦ rw a (
                      Keeps-bind _ _ (sleep-Keeps ctx 3000)
                        λ _. wait_boot_from-Keeps n m ctx i deadline)
                ]).at
              w)
      | inr e ↦ rw (e, wait_boot_from) refl
    ];
  }

  wait_boot-Keeps : (m : Machine) (ctx : Context) (i : Instance) → Keeps f (wait_boot m ctx i)
  unfolding wait_boot
  wait_boot-Keeps m ctx i = record {
    at = λ w. (wait_boot_from-Keeps 80 m ctx i (w.now + 240000)).at w;
  }

  pub wait_ready-Keeps : (m : Machine) (ctx : Context) (i : Instance) → Keeps f (wait_ready m ctx i)
  unfolding wait_ready
  wait_ready-Keeps m ctx i = search (tool_rules, wait_boot-Keeps)

mark_ready-Keeps :
    (m : Machine) (ctx : Context) (image : Image) → Keeps rows_in (mark_ready m ctx image)
unfolding mark_ready
mark_ready-Keeps m ctx image = search (keeps_rules, update_image_status-Keeps)

mark_image_error-Keeps :
    (m : Machine) (ctx : Context) (id text : String)
    → Keeps rows_in (mark_image_error m ctx id text)
unfolding mark_image_error
mark_image_error-Keeps m ctx id text = search (keeps_rules, update_image_status-Keeps)

create_image_dir-Keeps :
    (m : Machine) (ctx : Context) (image : Image) → Keeps rows_in (create_image_dir m ctx image)
unfolding create_image_dir
create_image_dir-Keeps m ctx image = elim (Option-cases (m.mkdir_all image.path)) [
  | inl e ↦ rw (e, create_image_dir) (search keeps_rules)
  | inr (x, e) ↦ rw (e, create_image_dir) (search (keeps_rules, mark_image_error-Keeps))
]

fetch_failed-Keeps :
    (m : Machine) (ctx : Context) (image : Image) (r : CommandResult)
    → Keeps rows_in (fetch_failed m ctx image r)
unfolding fetch_failed
fetch_failed-Keeps m ctx image r = elim (Option-cases r.failure) [
  | inl e ↦ rw e (search (keeps_rules, update_image_status-Keeps))
  | inr (x, e) ↦ rw e (search (keeps_rules, mark_image_error-Keeps))
]

pub ensure_image-Keeps :
    (m : Machine) (ctx : Context) (image : Image) → Keeps rows_in (ensure_image m ctx image)
unfolding ensure_image
ensure_image-Keeps m ctx image =
    search
      (
        keeps_rules, mark_ready-Keeps, update_image_status-Keeps, create_image_dir-Keeps, run-Keeps,
        fetch_failed-Keeps,
      )
      depth 9

pub is_adb_reachable-Keeps :
    {X : Type 0} {f : Tables → X} (m : Machine) (ctx : Context) (i : Instance)
    → Keeps f (is_adb_reachable m ctx i)
unfolding is_adb_reachable
is_adb_reachable-Keeps m ctx i = search (keeps_rules, run-Keeps)
