-- ===== src/Script/Steps.antt =====
-- backend/internal/scenario/runner.go: runStep and groundAndTap, one step of a test.
use open_cuttles.Script.{known_packages, package_in, swipe_coords, Stage, Verb}
use open_cuttles.Base.{
  str_eq, List, ltb, String, ℕ, [], ◌∷◌, if◌then◌else◌, zero, suc, true, false, none, some,
}
use open_cuttles.Go.Strings.{to_lower, codes, decimal}
use open_cuttles.Domain.{StepStatus, StepResult}
use open_cuttles.Go.Text.{is_empty}
use open_cuttles.Go.{Exec, branch, is_ok, error_text, ok, err}
use open_cuttles.Base.Int.{ℤ, pos}
use open_cuttles.Script.Words.{contains_loosely}
use Prim.Native.String.{◌++◌ as concat}

-- What looking for a target comes to.
pub data Search (W : Type 0) : Type 0 where
  gave_up : String → Search W
  found : List (ℕ → ℕ → ℤ × ℤ) → String → Search W

unfoldable pub step_name : ℕ → String
unfolding decimal
step_name i =
    concat "step-" (concat (if ltb i 10 then "0" else "") (concat (decimal (pos i)) ".png"))

module _ {W : Type 0} (s : Stage W) where
  unfoldable pub passed : ℕ → StepResult → W → StepResult × W
  passed start r w = (record r { pass = true; duration_ms = s.elapsed_ms start (s.now w) }, w)

  unfoldable pub failed : ℕ → String → StepResult → W → StepResult × W
  failed start detail r w =
      (record r { pass = false; detail = detail; duration_ms = s.elapsed_ms start (s.now w) }, w)

  -- The result of an operation decides the step.
  unfoldable pub settled : ℕ → StepResult → Exec W Unit → W → StepResult × W
  unfolding passed failed error_text
  settled start r m w = branch (m w) (λ e. failed start (error_text e) r) (λ _. passed start r)

module _ {W : Type 0} (s : Stage W) (id dir : String) (start : ℕ) where
  -- A fresh screenshot, which replaces the evidence of the step; the old one if there is none.
  unfoldable pub recapture : StepResult → String → W → String × W
  recapture r shot w =
      branch (s.screenshot id w) (λ e v. (shot, v))
        (λ fresh v.
          (fresh, if str_eq r.screenshot "" then v else (s.write_file dir r.screenshot fresh v).1))

  unfoldable pub search_for : ℕ → StepResult → String → W → Search W × W
  unfolding recapture error_text
  search_for zero r shot w = (Search.found [] shot, w)
  search_for (suc n) r shot w =
      branch (s.locate shot r.target w)
        (λ e v. (Search.gave_up (concat "vision point: " (error_text e)), v))
        (λ points v.
          let later =
            branch (s.pause 1500 v) (λ e u. (Search.gave_up "cancelled", u))
              (λ _ u. let (fresh, t) = recapture r shot u in search_for n r fresh t) in
          if is_empty points then later else (Search.found points shot, v))

  unfoldable pub tap_found : StepResult → Search W → W → StepResult × W
  unfolding passed failed settled error_text
  tap_found r (Search.gave_up detail) w = failed s start detail r w
  tap_found r (Search.found [] shot) w =
      failed s start (concat "could not find " (concat (s.quote r.target) " on screen")) r w
  tap_found r (Search.found (p ∷ rest) shot) w = elim (s.decode_config shot) [
    | err e ↦ failed s start (concat "decode screenshot: " (error_text e)) r w
    | ok (width, height) ↦
        let (x, y) = p width height in settled s start (record r { x = x; y = y }) (s.tap id x y) w
  ]

  unfoldable pub ground_and_tap : StepResult → String → W → StepResult × W
  unfolding search_for tap_found
  ground_and_tap r shot w = let (search, v) = search_for 4 r shot w in tap_found r search v

  -- The rounds of an assertion.
  unfoldable pub assert_from : ℕ → StepResult → String → W → StepResult × W
  unfolding passed failed recapture contains_loosely codes error_text
  assert_from zero r shot w =
      failed s start (concat "expected " (concat (s.quote r.target) " on screen")) r w
  assert_from (suc n) r shot w =
      branch (s.query shot "Describe the screen and all visible text." w)
        (λ e. failed s start (concat "vision query: " (error_text e)) r)
        (λ answer v.
          let seen = record r { model_out = answer } in
          let later =
            branch (s.pause 1500 v) (λ e. failed s start "cancelled" seen)
              (λ _ u. let (fresh, t) = recapture seen shot u in assert_from n seen fresh t) in
          if contains_loosely (codes answer) (codes r.target) then passed s start seen v else later)

  unfoldable pub type_into : StepResult × W → StepResult × W
  unfolding settled
  type_into (res, w) =
      if res.pass
      then settled s start res (s.type_text id res.value) (s.pause_uncancelled 600 w)
      else (res, w)

  unfoldable pub act : Verb → StepResult → String → W → StepResult × W
  unfolding passed failed settled ground_and_tap assert_from type_into swipe_coords package_in
      to_lower codes
  act Verb.wait r shot w =
      branch (s.pause 2000 w) (λ e. failed s start "cancelled" r) (λ _. passed s start r)
  act Verb.press_key r shot w = settled s start r (s.key id r.target) w
  act Verb.open_app r shot w = elim (package_in known_packages (to_lower (codes r.target))) [
    | some app ↦ settled s start r (s.launch_app id app) w
    | none ↦ ground_and_tap r shot w
  ]
  act Verb.tap r shot w = ground_and_tap r shot w
  act Verb.type_text r shot w =
      if str_eq r.target ""
      then settled s start r (s.type_text id r.value) w
      else type_into (ground_and_tap r shot w)
  act Verb.swipe r shot w =
      let ((x1, y1), (x2, y2)) = swipe_coords s r.target shot in
      settled s start r (s.swipe id (pos x1) (pos y1) (pos x2) (pos y2) (pos 300)) w
  act Verb.assert_text r shot w = assert_from 3 r shot w
  act Verb.unknown r shot w =
      failed s start (concat "could not understand step " (s.quote r.text)) r w

  new_result : ℕ → String → StepResult
  new_result index text =
      let (verb, target, value) = s.classify text in
      record {
        index = index;
        text = text;
        verb = s.verb_name verb;
        target = target;
        value = value;
        x = pos 0;
        y = pos 0;
        model_out = "";
        pass = false;
        status = StepStatus.other "";
        detail = "";
        duration_ms = 0;
        screenshot = "";
        battery = pos 0;
      }

  -- The evidence of a step: its screenshot, if it can be written, and the battery.
  with_evidence : ℕ → StepResult → String → W → StepResult × W
  unfolding step_name
  with_evidence index r shot w =
      let (written, v) = s.write_file dir (step_name index) shot w in
      let named = if is_ok written then record r { screenshot = step_name index } else r in
      branch (s.battery_level id v) (λ e u. (named, u))
        (λ level u. (record named { battery = level }, u))

unfoldable pub run_step : {W : Type 0} → Stage W → String → ℕ → String → String → W → StepResult × W
unfolding new_result with_evidence act failed error_text
run_step s id index text dir w =
    let start = s.now w in
    let r = new_result s id dir start index text in
    branch (s.screenshot id w) (λ e. failed s start (concat "screenshot: " (error_text e)) r)
      (λ shot v.
        let (evident, u) = with_evidence s id dir start index r shot v in
        act s id dir start (s.classify text).0 evident shot u)
