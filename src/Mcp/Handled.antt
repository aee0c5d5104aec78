-- ===== src/Mcp/Handled.antt =====
-- What the handlers of the tools do goes to the device that was found.
use open_cuttles.Mcp.Handlers.{
  or_caption, scroll_amounts, size_or, scroll_point, scroll_at, look, locate, tap_found,
  query_caption, query_screen, look_and_answer, launch_named, open_named, launch_package,
}
use open_cuttles.Go.Laws.{Result-cases}
use open_cuttles.Go.Strings.{codes, to_lower, trim_space}
use open_cuttles.DeviceControl.Actions.{Action, perform}
use open_cuttles.Go.{pure, Result, ◌>>=◌, ok, err}
use open_cuttles.Base.{ℕ, Option-cases, Option, String, ◌≡◌, inl, inr, [], ◌∷◌, none, some, refl}
use open_cuttles.Mcp.Targets.{open_app-Acting, input_size-Acting, act-Acting, screenshot-Acting}
use open_cuttles.DeviceControl.Effects.{get_instance-silent}
use open_cuttles.Mcp.Acting.{
  Acting-in_world, Acting-lift_result, Acting-ask_model, Acting-attempt, Acting-pure, Acting-raise,
  Acting-bind, Acting-if, Acting,
}
use open_cuttles.Mcp.Tools.{android_packages}
use open_cuttles.Store.{get_instance, Context}
use open_cuttles.DeviceControl.{Lab, in_world}
use open_cuttles.Script.{package_in}
use open_cuttles.Base.Int.{ℤ}
use open_cuttles.Mcp.{Vision, Gear}
use open_cuttles.Mcp.Calls.{tap_described}
use open_cuttles.DeviceControl.Operations

module _ (g : Gear) (ctx : Context) (id : String) where
  get_instance-Acting : Acting g.bench id (in_world (get_instance g.bench.database ctx id))
  get_instance-Acting = Acting-in_world _ (get_instance-silent g.bench.database ctx id)

  size_or-Acting : (fallback : ℕ × ℕ) → Acting g.bench id (size_or g ctx id fallback)
  unfolding size_or
  size_or-Acting fallback =
      Acting-bind _ _ (Acting-attempt _ (input_size-Acting g.bench ctx id)) (λ size. Acting-pure _)

  scroll_point-Acting : (x y : ℤ) → Acting g.bench id (scroll_point g ctx id x y)
  unfolding scroll_point
  scroll_point-Acting x y =
      Acting-if _ _ _
        (Acting-bind _ _ get_instance-Acting λ i.
          Acting-bind _ _
            (Acting-if _ _ _ (size_or-Acting (720, 1280))
              (Acting-pure (i.display_width, i.display_height)))
            (λ size. Acting-pure _))
        (Acting-pure (x, y))

  pub scroll_at-Acting :
      (direction : String) (amount x y : ℤ)
      → Acting g.bench id (scroll_at g ctx id direction amount x y)
  unfolding scroll_at perform
  scroll_at-Acting direction amount x y = Acting-bind _ _ (scroll_point-Acting x y) λ at.
      let far = scroll_amounts direction amount in
      act-Acting g.bench ctx id (Action.scroll at.0 at.1 far.0 far.1)

  look-Acting :
      (description : String) (v : Vision) → Acting g.bench id (look g ctx id description v)
  unfolding look
  look-Acting description v = Acting-bind _ _ (screenshot-Acting g.bench ctx id) λ png.
      Acting-bind _ _ (Acting-lift_result _) λ config.
        Acting-bind _ _ (Acting-ask_model g ctx _) λ points.
          elim points
            as (λ points. Acting g.bench id (elim points [
              | [] ↦ pure none
              | p ∷ rest ↦ (do size ← size_or g ctx id config; pure (some (p size.0 size.1)))
            ])) [
              | [] ↦ Acting-pure none
              | p ∷ rest ↦ Acting-bind _ _ (size_or-Acting config) (λ size. Acting-pure _)
            ]

  pub locate-Acting : (description : String) → Acting g.bench id (locate g ctx id description)
  unfolding locate
  locate-Acting description = elim (Option-cases g.vision) [
    | inl h ↦ rw h (Acting-raise _)
    | inr (v, h) ↦ rw h (look-Acting description v)
  ]

  tap_found-Acting :
      (description : String) (at : Option (ℤ × ℤ))
      → Acting g.bench id (tap_found g ctx id description at)
  unfolding tap_found perform
  tap_found-Acting description none = Acting-raise _
  tap_found-Acting description (some (x, y)) = act-Acting g.bench ctx id (Action.tap x y)

  pub tap_described-Acting :
      (description : String) → Acting g.bench id (tap_described g ctx id description)
  unfolding tap_described
  tap_described-Acting description =
      Acting-bind _ _ (locate-Acting description) (λ at. tap_found-Acting description at)

  query_caption-Acting :
      (png question : String) (v : Option Vision)
      → Acting g.bench id (query_caption g ctx png question v)
  unfolding query_caption
  query_caption-Acting png question none = Acting-raise _
  query_caption-Acting png question (some v) = Acting-ask_model g ctx _

  or_caption-Acting :
      (png question : String) (reply : Result String)
      → Acting g.bench id (or_caption g ctx png question reply)
  unfolding or_caption
  or_caption-Acting png question (err e) = query_caption-Acting png question g.vision
  or_caption-Acting png question (ok said) =
      Acting-if _ _ _ (query_caption-Acting png question g.vision) (Acting-pure said)

  query_screen-Acting :
      (png question : String) (q : Option (ℕ → String → String → Result String))
      → Acting g.bench id (query_screen g ctx png question q)
  unfolding query_screen
  query_screen-Acting png question none = query_caption-Acting png question g.vision
  query_screen-Acting png question (some ask) =
      Acting-bind _ _ (Acting-attempt _ (Acting-ask_model g ctx _)) (or_caption-Acting png question)

  pub look_and_answer-Acting :
      (question : String) → Acting g.bench id (look_and_answer g ctx id question)
  unfolding look_and_answer
  look_and_answer-Acting question =
      Acting-if _ _ _
        (Acting-bind _ _ (screenshot-Acting g.bench ctx id)
          (λ png. query_screen-Acting png question g.vqa))
        (Acting-raise _)

  launch_named-Acting : (name : String) → Acting g.bench id (launch_named g ctx id name)
  unfolding launch_named perform
  launch_named-Acting name =
      elim (Option-cases (package_in android_packages (to_lower (codes name)))) [
        | inl h ↦ rw (h, launch_named) (Acting-raise _)
        | inr (app, h) ↦ rw (h, launch_named) (act-Acting g.bench ctx id (Action.launch_app app))
      ]

  pub open_named-Acting : (name : String) → Acting g.bench id (open_named g ctx id name)
  unfolding open_named
  open_named-Acting name = Acting-bind _ _ get_instance-Acting λ i.
      Acting-if _ _ _ (Acting-raise _) (
        Acting-if _ _ _
          (Acting-bind _ _ (launch_named-Acting (trim_space name)) (λ u. Acting-pure "ok"))
          (Acting-bind _ _ (open_app-Acting g.bench ctx id (trim_space name))
            (λ opened. Acting-pure _)))

  launch_package-lab :
      (app : String) (l : Lab)
      → (launch_package g ctx id app l).1
        ≡ (open_cuttles.DeviceControl.Operations.launch_app g.bench ctx id app l).1
  unfolding launch_package
  launch_package-lab app l =
      elim (Result-cases
        (open_cuttles.DeviceControl.Operations.launch_app g.bench ctx id app l).0) [
          | inl (u, h) ↦ rw h refl
          | inr (e, h) ↦ rw h refl
        ]

  pub launch_package-Acting : (app : String) → Acting g.bench id (launch_package g ctx id app)
  unfolding perform
  launch_package-Acting app = record {
    at = λ l.
        rw (launch_package-lab app l) ((act-Acting g.bench ctx id (Action.launch_app app)).at l);
  }
