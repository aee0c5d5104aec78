-- ===== src/Mcp/Handlers.antt =====
-- backend/internal/mcp/server.go: what the handlers of the tools do on a device, and locate.
use open_cuttles.Mcp.Tools.{android_packages}
use open_cuttles.Go.{
  wrapped, attempt, pure, raise, branch, Exec, message, Error, Result, ◌>>=◌, ◌>>◌, ok, err,
}
use open_cuttles.DeviceControl.{lift_result, Lab, Bench, in_world}
use open_cuttles.DeviceControl.Operations
use open_cuttles.Base.Int.{neg, negsuc, pos, leb_ℤ, ℤ}
use open_cuttles.Base.{
  ◌/◌, ltb, str_eq, Bool, Option, ℕ, String, ◌&&◌, ◌||◌, [], ◌∷◌, if◌then◌else◌, ◌==◌, true, false,
  none, some,
}
use open_cuttles.Go.Strings.{to_lower, codes, lower_case, trim_space}
use open_cuttles.DeviceControl.Drivers.{is_android}
use open_cuttles.Store.{get_instance, Context}
use open_cuttles.Mcp.{Vision, ask_model, Gear}
use open_cuttles.Orchestrator.{sleep}
use open_cuttles.DeviceControl.Operations.{input_size}
use open_cuttles.Script.{package_in}
use Prim.Native.String.{◌++◌ as concat}

abbrev pub vision_unavailable : Error
vision_unavailable =
    message "vision is not configured; set OPENCUTTLES_VISION_URL and run the vision sidecar"

-- How far a scroll goes, right and down.
unfoldable pub scroll_amounts : String → ℤ → ℤ × ℤ
unfolding trim_space lower_case
scroll_amounts direction amount =
    let n = if leb_ℤ amount (pos 0) then pos 3 else amount in
    let said = lower_case (trim_space direction) in
    if str_eq said "up"
    then (pos 0, neg n)
    else if str_eq said "left"
    then (neg n, pos 0)
    else if str_eq said "right"
    then (n, pos 0)
    else (pos 0, n)

abbrev pub usable : Result (ℕ × ℕ) → ℕ × ℕ → ℕ × ℕ
usable (err e) fallback = fallback
usable (ok (w, h)) fallback = if (w == 0) || (h == 0) then fallback else (w, h)

abbrev decoded : {A : Type 0} → Result A → Result A
decoded (ok a) = ok a
decoded (err e) = err (wrapped "decode screenshot: " e "")

module _ (g : Gear) (ctx : Context) where
  abbrev b : Bench
  b = g.bench

  -- The size of the input space where it can be read, else another.
  unfoldable pub size_or : String → ℕ × ℕ → Exec Lab (ℕ × ℕ)
  unfolding input_size
  size_or id fallback = do size ← attempt (input_size b ctx id); pure (usable size fallback)

  unfoldable pub scroll_point : String → ℤ → ℤ → Exec Lab (ℤ × ℤ)
  unfolding size_or in_world get_instance
  scroll_point id x y =
      if leb_ℤ x (pos 0) && leb_ℤ y (pos 0)
      then (do
        i ← in_world (get_instance b.database ctx id)
        size ←
            (if (i.display_width == 0) || (i.display_height == 0)
              then size_or id (720, 1280)
              else pure (i.display_width, i.display_height))
        pure (pos (size.0 / 2), pos (size.1 / 2)))
      else pure (x, y)

  unfoldable pub scroll_at : String → String → ℤ → ℤ → ℤ → Exec Lab (Unit {0})
  unfolding scroll_point scroll_amounts open_cuttles.DeviceControl.Operations.scroll
  scroll_at id direction amount x y = do
    at ← scroll_point id x y
    let far = scroll_amounts direction amount
    Operations.scroll b ctx id at.0 at.1 far.0 far.1

  unfoldable pub look : String → String → Vision → Exec Lab (Option (ℤ × ℤ))
  unfolding open_cuttles.DeviceControl.Operations.screenshot lift_result ask_model size_or
  look id description v = do
    png ← Operations.screenshot b ctx id
    config ← lift_result (decoded (g.decode_config png))
    points ← ask_model g ctx (λ tick. v.locate tick png description)
    elim points [
      | [] ↦ pure none
      | p ∷ rest ↦ (do size ← size_or id config; pure (some (p size.0 size.1)))
    ]

  -- Where an element is, in the input space of the device.
  unfoldable pub locate : String → String → Exec Lab (Option (ℤ × ℤ))
  unfolding look
  locate id description = elim g.vision [
    | none ↦ raise vision_unavailable
    | some v ↦ look id description v
  ]

  unfoldable pub tap_found : String → String → Option (ℤ × ℤ) → Exec Lab (Unit {0})
  unfolding open_cuttles.DeviceControl.Operations.tap
  tap_found id description none = raise (
      message (
        concat "could not find " (
          concat (g.quote description)
            " on screen; try describing it differently, scroll to reveal it, or use get_ui_tree")))
  tap_found id description (some (x, y)) = Operations.tap b ctx id x y

  unfoldable pub query_caption : String → String → Option Vision → Exec Lab String
  unfolding ask_model
  query_caption png question none = raise vision_unavailable
  query_caption png question (some v) = ask_model g ctx (λ tick. v.query tick png question)

  -- The caption model answers where the configured model gives no answer.
  unfoldable pub or_caption : String → String → Result String → Exec Lab String
  unfolding query_caption trim_space
  or_caption png question (err e) = query_caption png question g.vision
  or_caption png question (ok said) =
      if str_eq (trim_space said) "" then query_caption png question g.vision else pure said

  unfoldable pub query_screen :
      String → String → Option (ℕ → String → String → Result String) → Exec Lab String
  unfolding query_caption ask_model or_caption
  query_screen png question none = query_caption png question g.vision
  query_screen png question (some ask) = do
    reply ← attempt (ask_model g ctx (λ tick. ask tick png question))
    or_caption png question reply

  unfoldable pub has_model : Bool
  has_model = elim g.vqa [ some q ↦ true | none ↦ elim g.vision [ some v ↦ true | none ↦ false ] ]

  unfoldable pub look_and_answer : String → String → Exec Lab String
  unfolding query_screen open_cuttles.DeviceControl.Operations.screenshot has_model
  look_and_answer id question =
      if has_model
      then (do png ← Operations.screenshot b ctx id; query_screen png question g.vqa)
      else raise vision_unavailable

  unfoldable pub launch_named : String → String → Exec Lab (Unit {0})
  unfolding package_in codes to_lower open_cuttles.DeviceControl.Operations.launch_app
  launch_named id name = elim (package_in android_packages (to_lower (codes name))) [
    | none ↦ raise (
        message (
          concat "don't know the Android package for " (
            concat (g.quote name)
              " — call list_apps and use launch_app with the exact package name")))
    | some app ↦ Operations.launch_app b ctx id app
  ]

  -- What the status of open_app says.
  unfoldable pub open_named : String → String → Exec Lab String
  unfolding in_world get_instance trim_space launch_named is_android
      open_cuttles.DeviceControl.Operations.open_app
  open_named id name = do
    i ← in_world (get_instance b.database ctx id)
    (if str_eq (trim_space name) ""
        then raise (message "name is required")
        else if is_android i.platform
        then (do launch_named id (trim_space name); pure "ok")
        else (do
          opened ← Operations.open_app b ctx id (trim_space name)
          pure (concat "opened " opened)))

  unfoldable pub launch_package : String → String → Exec Lab (Unit {0})
  unfolding open_cuttles.DeviceControl.Operations.launch_app
  launch_package id app l =
      branch (Operations.launch_app b ctx id app l)
        (λ e. raise (
          message (
            concat "could not launch " (
              concat (g.quote app) (
                concat
                  " — it may not be installed. Call list_apps for exact installed package names,"
                  " or tap the app's icon with tap_element. Do not invent package names")))))
        (λ u. pure tt)

  unfoldable pub wait_for : ℤ → Exec Lab (Unit {0})
  unfolding in_world sleep
  wait_for (negsuc n) = in_world (sleep ctx 1000)
  wait_for (pos n) =
      in_world (sleep ctx (if n == 0 then 1000 else if ltb 30000 n then 30000 else n))
